-- ===== src/System/Echo.antt =====
-- A command that reaches client C, through the command FIFO and the gateway.
use smart_home_weather_monit.Base.{
  ℕ, ◌≡◌, ◌≢◌, ◌≤◌, refl, ap, ◌∙◌, true, false, none, some, [], ◌∷◌, ◌++◌, arith, length,
  length-append, take, take_all,
}
use smart_home_weather_monit.Text.{Bytes, c_text}
use smart_home_weather_monit.Text.Buffers.{IsText, IsLine, c_text_lem}
use smart_home_weather_monit.Server
use smart_home_weather_monit.Server.{forward}
use smart_home_weather_monit.Server.Threads.{Server, Reach}
use smart_home_weather_monit.Server.Invariant.{role_c}
use smart_home_weather_monit.Server.Routing.{forward-eq-deliveries}
use smart_home_weather_monit.ClientB.{reply_text}
use smart_home_weather_monit.ClientC
use smart_home_weather_monit.ClientC.{Client, Command, unknown, command_fifo, fifo_written, emit}
use smart_home_weather_monit.ClientC.Commands.{parse_command_type}
use smart_home_weather_monit.ClientC.Messages.{
  Fifos, is_unknown, is_confirmation, handle_command, handle_text, parse_and_handle_message,
}
use smart_home_weather_monit.ClientC.Thread.{drop_newline, message_text}
use smart_home_weather_monit.Gateway.{Gateway}
use smart_home_weather_monit.Gateway.Delivery.{
  IsOnline, send_online, emit-IsOnline, loop_one, c_text-line,
}
use smart_home_weather_monit.Gateway.Listeners.{got, command_text, command_loop}
use smart_home_weather_monit.System.City.{received_text-IsText, reply_text-IsText}
use smart_home_weather_monit.System.RoundTrip.{drop_newline-append}

-- A command that fits the buffers, in one line.
pub record IsCommand (m : Bytes) (k : Command) : Type 0 where
  pub text : IsText m
  pub line : IsLine m
  pub not_empty : m ≢ []
  pub short : length m ≤ 1022
  pub no_confirmation : is_confirmation m ≡ false
  pub known : k ≢ unknown
  pub parsed : parse_command_type (some m) ≡ k

drop_newline-IsLine : (m : Bytes) → IsLine m → drop_newline m ≡ m
unfolding drop_newline
drop_newline-IsLine [] h = refl
drop_newline-IsLine (c ∷ []) h = ground (arith, h.0)
drop_newline-IsLine (c ∷ d ∷ m) h = ap (◌∷◌ c) (drop_newline-IsLine (d ∷ m) h.1)

is_unknown-known : (k : Command) → k ≢ unknown → is_unknown k ≡ false
is_unknown-known unknown h = absurd (h refl)
is_unknown-known _ h = refl

command_text_lem :
    (msg t : Bytes) → c_text (take 1023 msg) ≡ t → t ≢ [] → command_text msg ≡ some (drop_newline t)
unfolding command_text
command_text_lem msg [] e h = absurd (h refl)
command_text_lem msg (c ∷ t) e h = rw (e, command_text) refl

append-not_empty : (m : Bytes) → m ++ b'\n' ∷ [] ≢ []
append-not_empty [] = λ e. cc
append-not_empty (c ∷ m) = λ e. cc

module _ {m : Bytes} {k : Command} (v : IsCommand m k) where
  message_text-command : message_text m ≡ m
  unfolding message_text
  message_text-command =
      let l = v.short in
      ap (λ t. c_text (drop_newline t)) (take_all 4095 m (omega arith))
      ∙ ap c_text (drop_newline-IsLine m v.line)
      ∙ c_text_lem m v.text

  handle_text-command :
      (fifos : Fifos) (c : Client) → handle_text fifos c m ≡ some (handle_command fifos c k m)
  unfolding handle_text
  handle_text-command fifos c =
      rw (v.no_confirmation, handle_text)
        (rw (v.parsed, handle_text) (rw (is_unknown-known k v.known, handle_text) refl))

  not_empty_lem :
      (fifos : Fifos) (c : Client) (t : Bytes)
      → t ≢ []
      → parse_and_handle_message fifos c (some t) ≡ handle_text fifos c t
  unfolding parse_and_handle_message
  not_empty_lem fifos c [] h = absurd (h refl)
  not_empty_lem fifos c (b ∷ t) h = refl

  handle_command-written :
      (fifos : Fifos) (c : Client)
      → fifos.found command_fifo ≡ true
      → fifos.opened command_fifo ≡ true
      → c.config.command_callback ≡ none
      → handle_command fifos c k m ≡ emit c (fifo_written command_fifo m)
  unfolding handle_command
  handle_command-written fifos c found opened silent = ground arith

  command_text-command : command_text (m ++ b'\n' ∷ []) ≡ some m
  unfolding c_text
  command_text-command =
      let l = v.short in
      command_text_lem (m ++ b'\n' ∷ []) (m ++ b'\n' ∷ [])
        (ap c_text (take_all 1023 (m ++ b'\n' ∷ []) (omega (arith, length-append m (b'\n' ∷ []))))
          ∙ c_text-line m [] v.text)
        (append-not_empty m)
      ∙ ap some (drop_newline-append m)

  -- A command that the server sends to client C in one line comes back to the server, unchanged. Client C
  -- writes it into the command FIFO; the gateway's command handler reads it there and, while client C is
  -- online and its send succeeds, has client C send it to the server, which passes it on to client B
  -- alone; and client B shows it, whole.
  pub command_returned :
      {s : Server} (x b fd : ℕ) (fifos : Fifos) (g : Gateway)
      → Reach s
      → s.clients.client_c ≡ some x
      → s.clients.client_b ≡ some b
      → fifos.found command_fifo ≡ true
      → fifos.opened command_fifo ≡ true
      → g.client.config.command_callback ≡ none
      → IsOnline g fd
      → ((c : Client) × (parse_and_handle_message fifos g.client (some (message_text m)) ≡ some c)
          × (command_loop (record g { client = c }) (got (m ++ b'\n' ∷ []) true ∷ [])
              ≡ some (record g {
                client = emit (emit g.client (fifo_written command_fifo m)) (ClientC.sent fd m);
              })))
        × (Server.received_text m ≡ some m)
        × (forward s.clients x m ≡ Server.sent b m ∷ [])
        × (reply_text (some m) ≡ some m)
  command_returned x b fd fifos g r ex eb found opened silent on =
      let l = v.short in
      let c = emit g.client (fifo_written command_fifo m) in
      let e =
        ap (λ t. parse_and_handle_message fifos g.client (some t)) message_text-command
        ∙ not_empty_lem fifos g.client m v.not_empty
        ∙ handle_text-command fifos g.client
        ∙ ap some (handle_command-written fifos g.client found opened silent) in
      (
        (
          c,
          e,
          loop_one (record g { client = c }) (m ++ b'\n' ∷ []) m true command_text-command
              ∙ ap some (
                  send_online (record g { client = c }) fd m
                    (emit-IsOnline g fd (fifo_written command_fifo m) on)),
        ),
        received_text-IsText m v.text (omega arith),
        ground (arith, forward-eq-deliveries role_c x m r ex),
        reply_text-IsText m v.text (omega arith),
      )
