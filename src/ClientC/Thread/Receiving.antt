-- ===== src/ClientC/Thread/Receiving.antt =====
-- The loop over messages of client C: where it is defined, and what it keeps.
use smart_home_weather_monit.Base.{
  ◌≡◌, refl, ◌∙◌, true, false, Option, none, some, List, [], ◌∷◌, arith, is_some, Bool-cases,
  Option-cases, inl, inr, ◌&&◌, if◌then◌else◌,
}
use smart_home_weather_monit.Text.{Bytes}
use smart_home_weather_monit.ClientC.{
  Client, Errno, fifo_written, command_called, weather_called, client_c_stop, Command, Fifo,
  weather_fifo, command_fifo,
}
use smart_home_weather_monit.ClientC.Weather.Bounds.{parse_weather-IsWhole}
use smart_home_weather_monit.ClientC.Messages.{
  Fifos, write_fifo, call_command, call_weather, handle_command, handle_weather, handle_text,
  parse_and_handle_message, is_confirmation, is_weather, is_unknown,
}
use smart_home_weather_monit.ClientC.Commands.{parse_command_type}
use smart_home_weather_monit.ClientC.Lifecycle.{
  Inv, emit-Inv, errno-Inv, client_c_stop-Inv, on_both,
}
use smart_home_weather_monit.ClientC.Thread.{
  Recv, message, end_of_stream, failed, stopped, Progress, waiting, left, tcp_receive_message,
  message_loop, message_text, is_retryable,
}

-- What a call leaves behind: the invariant, and the socket and the flag as they were.
abbrev Kept : Client → Client → Type 0
Kept c d = Inv d × (d.tcp_socket ≡ c.tcp_socket) × (d.tcp_running ≡ c.tcp_running)

write_fifo-Kept :
    (env : Fifos) (c : Client) (f : Fifo) (text : Bytes) → Inv c → Kept c (write_fifo env c f text)
write_fifo-Kept env c f text v =
    on_both (Kept c) (env.found f && env.opened f) _ _
      (emit-Inv (fifo_written f text) tt v, refl, refl) (v, refl, refl)

call_command-Kept : (c : Client) (k : Command) → Inv c → Kept c (call_command c k)
call_command-Kept c k v = elim (Option-cases c.config.command_callback) [
  | inl e ↦ rw (e, call_command) (v, refl, refl)
  | inr (f, e) ↦ rw (e, call_command) (emit-Inv (command_called f k) tt v, refl, refl)
]

call_weather-Kept : (c : Client) (json : Bytes) → Inv c → Kept c (call_weather c json)
call_weather-Kept c json v = elim (Option-cases c.config.weather_callback) [
  | inl e ↦ rw (e, call_weather) (v, refl, refl)
  | inr (f, e) ↦ rw (e, call_weather) (emit-Inv (weather_called f json) tt v, refl, refl)
]

Kept-trans : (c d e : Client) → Kept c d → Kept d e → Kept c e
Kept-trans c d e (v, s, r) (v', s', r') = (v', s' ∙ s, r' ∙ r)

-- A result that is there and keeps all that.
abbrev Handles : Client → Option Client → Type 0
Handles c r = (d : Client) × (r ≡ some d) × Kept c d

handle_weather-Handles :
    (env : Fifos) (c : Client) (text : Bytes) → Inv c → Handles c (handle_weather env c text)
unfolding handle_weather
handle_weather-Handles env c text v =
    let (w, json, e, f, whole) = parse_weather-IsWhole text in
    let d = write_fifo env c weather_fifo json in
    let k = write_fifo-Kept env c weather_fifo json v in
    (
      call_weather d json,
      rw (e, handle_weather) (rw (f, handle_weather) refl),
      Kept-trans c d (call_weather d json) k (call_weather-Kept d json k.0),
    )

handle_command-Kept :
    (env : Fifos) (c : Client) (k : Command) (text : Bytes)
    → Inv c
    → Kept c (handle_command env c k text)
unfolding handle_command
handle_command-Kept env c k text v =
    let d = write_fifo env c command_fifo text in
    let h = write_fifo-Kept env c command_fifo text v in
    Kept-trans c d (call_command d k) h (call_command-Kept d k h.0)

handle_text-Handles :
    (env : Fifos) (c : Client) (text : Bytes) → Inv c → Handles c (handle_text env c text)
unfolding handle_text
handle_text-Handles env c text v =
    on_both {A = Option Client} (Handles c) (is_confirmation text) _ _ (c, refl, (v, refl, refl))
      (on_both {A = Option Client} (Handles c) (is_unknown (parse_command_type (some text))) _ _
        (on_both {A = Option Client} (Handles c) (is_weather text) _ _
          (handle_weather-Handles env c text v) (c, refl, (v, refl, refl)))
        (
          handle_command env c (parse_command_type (some text)) text,
          refl,
          handle_command-Kept env c (parse_command_type (some text)) text v,
        ))

parse_and_handle_message-Handles :
    (env : Fifos) (c : Client) (text : Option Bytes)
    → Inv c
    → Handles c (parse_and_handle_message env c text)
unfolding parse_and_handle_message
parse_and_handle_message-Handles env c none v = (c, refl, (v, refl, refl))
parse_and_handle_message-Handles env c (some []) v = (c, refl, (v, refl, refl))
parse_and_handle_message-Handles env c (some (b ∷ bs)) v = handle_text-Handles env c (b ∷ bs) v

module _ (logged : Errno → Errno) where
  -- The steps of the loop over messages.
  module _ (c : Client) (rs : List Recv) where
    loop_stops :
        (r : Recv)
        → (c.tcp_running && is_some c.tcp_socket) ≡ false
        → message_loop logged c (r ∷ rs) ≡ some (c, left)
    unfolding message_loop
    loop_stops r e = ground arith

    loop_message :
        (msg : Bytes) (fifos : Fifos) (e : Errno) (next : Client)
        → (c.tcp_running && is_some c.tcp_socket) ≡ true
        → parse_and_handle_message fifos c (some (message_text msg)) ≡ some next
        → message_loop logged c (message msg fifos e ∷ rs)
          ≡ message_loop logged (record next { errno = e }) rs
    unfolding message_loop
    loop_message msg fifos e next on h = ground (arith, h)

    loop_goes_on :
        (r : Recv) (d : Client)
        → (c.tcp_running && is_some c.tcp_socket) ≡ true
        → tcp_receive_message logged c r ≡ (d, none)
        → is_retryable d.errno ≡ true
        → message_loop logged c (r ∷ rs) ≡ message_loop logged d rs
    unfolding message_loop
    loop_goes_on r d on h y = ground (arith, h)

    loop_breaks :
        (r : Recv) (d : Client)
        → (c.tcp_running && is_some c.tcp_socket) ≡ true
        → tcp_receive_message logged c r ≡ (d, none)
        → is_retryable d.errno ≡ false
        → message_loop logged c (r ∷ rs) ≡ some (record d { errno = logged d.errno }, left)
    unfolding message_loop
    loop_breaks r d on h n = ground (arith, h)

  -- A run that is defined, and ends within the invariant.
  abbrev pub Runs : Option (Client × Progress) → Type 0
  Runs r = (d : Client) × (p : Progress) × (r ≡ some (d, p)) × Inv d

  Runs-step : (r r' : Option (Client × Progress)) → r ≡ r' → Runs r' → Runs r
  Runs-step r r' e (d, p, h, v) = (d, p, e ∙ h, v)

  nothing_received :
      (c d : Client) (r : Recv) (rs : List Recv)
      → tcp_receive_message logged c r ≡ (d, none)
      → Inv c
      → Inv d
      → Runs (message_loop logged d rs)
      → Runs (message_loop logged c (r ∷ rs))
  nothing_received c d r rs h v v' ih = elim (Bool-cases (c.tcp_running && is_some c.tcp_socket)) [
    | inl on ↦ elim (Bool-cases (is_retryable d.errno)) [
      | inl y ↦ Runs-step _ _ (loop_goes_on c rs r d on h y) ih
      | inr n ↦ (
        record d { errno = logged d.errno },
        left,
        loop_breaks c rs r d on h n,
        errno-Inv (logged d.errno) v',
      )
    ]
    | inr off ↦ (c, left, loop_stops c rs r off, v)
  ]

  receive_failed-Inv :
      (c : Client) (e : Errno) → Inv c → Inv (tcp_receive_message logged c (failed e)).0
  unfolding tcp_receive_message
  receive_failed-Inv c e v =
      on_both Inv (is_retryable e) _ _ (errno-Inv e v) (errno-Inv (logged e) (errno-Inv e v))

  receive_stopped-Inv : (c : Client) → Inv c → Inv (tcp_receive_message logged c stopped).0
  unfolding tcp_receive_message
  receive_stopped-Inv c v = errno-Inv (logged (client_c_stop c).errno) (client_c_stop-Inv v)

  receive_nothing :
      (c : Client)
      → (tcp_receive_message logged c end_of_stream ≡ (record c { errno = logged c.errno }, none))
        × ((e : Errno)
            → tcp_receive_message logged c (failed e)
              ≡ ((tcp_receive_message logged c (failed e)).0, none))
        × (tcp_receive_message logged c stopped ≡ ((tcp_receive_message logged c stopped).0, none))
  unfolding tcp_receive_message
  receive_nothing c = (refl, λ e. refl, refl)

  message_loop_end :
      (c : Client)
      → message_loop logged c []
        ≡ some (c, if c.tcp_running && is_some c.tcp_socket then waiting else left)
  unfolding message_loop
  message_loop_end c = refl

  pub message_loop-Runs : (c : Client) (rs : List Recv) → Inv c → Runs (message_loop logged c rs)
  message_loop-Runs c [] v =
      (c, if c.tcp_running && is_some c.tcp_socket then waiting else left, message_loop_end c, v)
  message_loop-Runs c (message msg fifos e ∷ rs) v =
      elim (Bool-cases (c.tcp_running && is_some c.tcp_socket)) [
        | inl on ↦
            let (next, h, k) =
              parse_and_handle_message-Handles fifos c (some (message_text msg)) v in
            Runs-step _ _ (loop_message c rs msg fifos e next on h)
              (message_loop-Runs (record next { errno = e }) rs (errno-Inv e k.0))
        | inr off ↦ (c, left, loop_stops c rs (message msg fifos e) off, v)
      ]
  message_loop-Runs c (end_of_stream ∷ rs) v =
      let d = record c { errno = logged c.errno } in
      let v' = errno-Inv (logged c.errno) v in
      nothing_received c d end_of_stream rs (receive_nothing c).0 v v' (message_loop-Runs d rs v')
  message_loop-Runs c (failed e ∷ rs) v =
      let d = (tcp_receive_message logged c (failed e)).0 in
      let v' = receive_failed-Inv c e v in
      nothing_received c d (failed e) rs ((receive_nothing c).1 e) v v' (message_loop-Runs d rs v')
  message_loop-Runs c (stopped ∷ rs) v =
      let d = (tcp_receive_message logged c stopped).0 in
      let v' = receive_stopped-Inv c v in
      nothing_received c d stopped rs (receive_nothing c).2 v v' (message_loop-Runs d rs v')
