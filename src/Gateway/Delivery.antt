-- ===== src/Gateway/Delivery.antt =====
-- Client C, the FIFOs and the gateway together.
use smart_home_weather_monit.Base.{
  ℕ, suc, List, ◌≤◌, ◌≡◌, refl, ap, ◌∙◌, Bool, true, some, [], ◌∷◌, ◌++◌, arith, length, take,
  take_all, inl, inr, Bool-cases,
}
use smart_home_weather_monit.Base.Int.{ℤ, is_nonzero}
use smart_home_weather_monit.Text.{Bytes, c_text}
use smart_home_weather_monit.Text.Buffers.{IsText, IsLine}
use smart_home_weather_monit.ClientC.{Client, Event, sent, emit, client_c_is_connected}
use smart_home_weather_monit.ClientC.Sending.{client_c_send_command}
use smart_home_weather_monit.Gateway.{Gateway, Action, send_if_connected}
use smart_home_weather_monit.Gateway.Fifo.{
  ReadEnv, command_bytes, write_command_to_fifo-whole, read_weather, write_command_to_fifo,
  until_newline, until_newline-append,
}
use smart_home_weather_monit.Gateway.Listeners.{got, command_text, command_loop}
use smart_home_weather_monit.Gateway.Requests.{
  Device, led, buzzer, SwitchEnv, device_command, switch_device, set_status,
}

pub c_text-line :
    (t rest : Bytes) → IsText t → c_text (t ++ b'\n' ∷ rest) ≡ t ++ b'\n' ∷ c_text rest
unfolding c_text
c_text-line [] rest h = refl
c_text-line (c ∷ t) rest h = ground (arith, h.0, c_text-line t rest h.1)

first_line :
    (line rest : Bytes)
    → IsText line
    → IsLine line
    → length (line ++ b'\n' ∷ rest) ≤ 1023
    → until_newline (c_text (take 1023 (line ++ b'\n' ∷ rest))) ≡ line
first_line line rest t l short =
    ap (λ x. until_newline (c_text x)) (take_all 1023 (line ++ b'\n' ∷ rest) short)
    ∙ ap until_newline (c_text-line line rest t)
    ∙ until_newline-append line (c_text rest) l

-- The first line that client C has written into the weather FIFO is what the gateway reads from it, and
-- keeps, if that line and what follows it in the FIFO fit the buffer.
pub read_weather-line :
    (env : ReadEnv) (last line rest : Bytes)
    → env.found ≡ true
    → env.opened ≡ true
    → env.content ≡ some (line ++ b'\n' ∷ rest)
    → IsText line
    → IsLine line
    → length (line ++ b'\n' ∷ rest) ≤ 1023
    → read_weather env last ≡ (line, some line)
unfolding read_weather
read_weather-line env last [] rest f o e t l short = ground (arith, first_line [] rest t l short)
read_weather-line env last (c ∷ line) rest f o e t l short =
    ground (arith, first_line (c ∷ line) rest t l short)

command_text-line :
    (d : Device) (action : ℤ)
    → command_text (device_command d action ++ b'\n' ∷ []) ≡ some (device_command d action)
unfolding command_text device_command
command_text-line led action = elim (Bool-cases (is_nonzero action)) [
  | inl y ↦ rw y refl
  | inr n ↦ rw n refl
]
command_text-line buzzer action = elim (Bool-cases (is_nonzero action)) [
  | inl y ↦ rw y refl
  | inr n ↦ rw n refl
]

-- Client C is initialised, connected, and its socket is fd.
pub record IsOnline (g : Gateway) (fd : ℕ) : Type 0 where
  pub ready : g.client_c_initialized ≡ true
  pub online : client_c_is_connected g.client ≡ true
  pub socket : g.client.tcp_socket ≡ some fd

pub send_online :
    (g : Gateway) (fd : ℕ) (text : Bytes)
    → IsOnline g fd
    → send_if_connected g text true ≡ record g { client = emit g.client (sent fd text) }
unfolding send_if_connected client_c_send_command
send_online g fd text v = ground (arith, v.ready, v.online, v.socket)

pub emit-IsOnline :
    (g : Gateway) (fd : ℕ) (e : Event)
    → IsOnline g fd
    → IsOnline (record g { client = emit g.client e }) fd
unfolding client_c_is_connected
emit-IsOnline g fd e v = record { ready = v.ready; online = v.online; socket = v.socket }

abbrev pub SameClient : Gateway → Gateway → Type 0
SameClient g g' = (g'.client ≡ g.client) × (g'.client_c_initialized ≡ g.client_c_initialized)

pub same-IsOnline : (g g' : Gateway) (fd : ℕ) → SameClient g g' → IsOnline g fd → IsOnline g' fd
same-IsOnline g g' fd e v = record {
  ready = e.1 ∙ v.ready;
  online = ap client_c_is_connected e.0 ∙ v.online;
  socket = ap (λ c. c.tcp_socket) e.0 ∙ v.socket;
}

-- The gateway after the status is stored and the command has gone into the FIFO.
abbrev pub announced : SwitchEnv → Gateway → Device → ℤ → Gateway
announced env g d action =
    (write_command_to_fifo env.fifo (set_status g d action) (device_command d action)).0

pub announced-SameClient :
    (env : SwitchEnv) (g : Gateway) (d : Device) (action : ℤ)
    → SameClient g (announced env g d action)
unfolding write_command_to_fifo
announced-SameClient env g led action = (ground arith, ground arith)
announced-SameClient env g buzzer action = (ground arith, ground arith)

abbrev pub with_sent : Gateway → ℕ → Bytes → Gateway
with_sent g fd text = record g { client = emit g.client (sent fd text) }

set_status-actions :
    (g : Gateway) (d : Device) (action : ℤ) → (set_status g d action).actions ≡ g.actions
set_status-actions g led action = refl
set_status-actions g buzzer action = refl

pub switch_online :
    (env : SwitchEnv) (g : Gateway) (d : Device) (action : ℤ) (fd : ℕ)
    → IsOnline g fd
    → env.sends ≡ true
    → switch_device env g d action
      ≡ with_sent (announced env g d action) fd (device_command d action)
unfolding switch_device
switch_online env g d action fd v s =
    ap (send_if_connected (announced env g d action) (device_command d action)) s
    ∙ send_online (announced env g d action) fd (device_command d action)
        (same-IsOnline g (announced env g d action) fd (announced-SameClient env g d action) v)

pub loop_one :
    (g : Gateway) (msg text : Bytes) (ok : Bool)
    → command_text msg ≡ some text
    → command_loop g (got msg ok ∷ []) ≡ some (send_if_connected g text ok)
unfolding command_loop
loop_one g msg text ok e = ground arith

device_command-some :
    (d : Device) (action : ℤ) → (n : ℕ) × (length (device_command d action) ≡ suc n)
unfolding device_command
device_command-some led action = elim (Bool-cases (is_nonzero action)) [
  | inl y ↦ rw y (5, refl)
  | inr n ↦ rw n (6, refl)
]
device_command-some buzzer action = elim (Bool-cases (is_nonzero action)) [
  | inl y ↦ rw y (8, refl)
  | inr n ↦ rw n (9, refl)
]

-- While client C is connected and the command FIFO takes the whole command, a device that the cloud
-- switches is announced to the server twice: once by the switch itself, and once by the command handler
-- when it reads what the switch has put into the FIFO.
pub switch_device-sent_twice :
    (env : SwitchEnv) (g : Gateway) (d : Device) (action : ℤ) (fd : ℕ)
    → IsOnline g fd
    → env.sends ≡ true
    → env.fifo.opened ≡ true
    → env.fifo.written ≡ some (length (device_command d action))
    → (new : List Action) × (last : Gateway) × ((switch_device env g d action).actions
        ≡ g.actions ++ new)
      × (command_loop (switch_device env g d action) (got (command_bytes new) true ∷ [])
          ≡ some last)
      × (last.client.trace
          ≡ (g.client.trace ++ sent fd (device_command d action) ∷ [])
            ++ sent fd (device_command d action) ∷ [])
switch_device-sent_twice env g d action fd v s opens whole =
    let cmd = device_command d action in
    let g1 = announced env g d action in
    let same = announced-SameClient env g d action in
    let (n, e) = device_command-some d action in
    let (new, acts, line) =
      write_command_to_fifo-whole env.fifo (set_status g d action) cmd n opens (whole ∙ ap some e)
        e in
    let v2 = emit-IsOnline g1 fd (sent fd cmd) (same-IsOnline g g1 fd same v) in
    (
      new,
      with_sent (with_sent g1 fd cmd) fd cmd,
      ap (λ (h : Gateway). h.actions) (switch_online env g d action fd v s)
          ∙ acts
          ∙ ap (λ as'. as' ++ new) (set_status-actions g d action),
      rw (switch_online env g d action fd v s, line)
          (loop_one (with_sent g1 fd cmd) (cmd ++ b'\n' ∷ []) cmd true (command_text-line d action)
            ∙ ap some (send_online (with_sent g1 fd cmd) fd cmd v2)),
      ap (λ (c : Client). (c.trace ++ sent fd cmd ∷ []) ++ sent fd cmd ∷ []) same.0,
    )
