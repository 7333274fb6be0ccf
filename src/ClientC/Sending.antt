-- ===== src/ClientC/Sending.antt =====
-- `client_c_send_command` and `client_c_send_message`.
use smart_home_weather_monit.Base.{
  ℕ, ◌⊎◌, Bool-cases, ◌≡◌, Bool, true, false, ◌&&◌, Option, none, some, ◌++◌, arith, if◌then◌else◌,
  Option-cases, inl, inr,
}
use smart_home_weather_monit.Text.{Bytes, bytes, snprintf}
use smart_home_weather_monit.ClientC.{
  Client, MsgType, weather, command, status, identity, other, sent, emit, client_c_is_connected,
}

-- The send itself; the flag tells whether it succeeds.
abbrev pub send_on : Client → Option Bytes → Bool → Client × Bool
send_on c none ok = (c, false)
send_on c (some text) ok = elim c.tcp_socket [
  | none ↦ (c, false)
  | some fd ↦ if ok then (emit c (sent fd text), true) else (c, false)
]

-- `none` is NULL.
unfoldable pub client_c_send_command : Client → Option Bytes → Bool → Client × Bool
client_c_send_command c text ok = if client_c_is_connected c then send_on c text ok else (c, false)

abbrev pub type_prefix : MsgType → Bytes
type_prefix weather = bytes "WEATHER:"
type_prefix command = bytes "COMMAND:"
type_prefix status = bytes "STATUS:"
type_prefix identity = bytes "IDENTITY:"
type_prefix other = bytes "UNKNOWN:"

unfoldable pub client_c_send_message : Client → MsgType → Option Bytes → Bool → Client × Bool
client_c_send_message c t none ok = (c, false)
client_c_send_message c t (some text) ok =
    if client_c_is_connected c
    then client_c_send_command c (some (snprintf 2048 (type_prefix t ++ text))) ok
    else (c, false)

-- What a send of a text does: one send on the open socket, or nothing.
abbrev pub Sends : Client → Bytes → Client × Bool → Type 0
Sends c text r =
    ((fd : ℕ) × (c.tcp_socket ≡ some fd) × (r ≡ (emit c (sent fd text), true))) ⊎ (r ≡ (c, false))

-- A command goes out once, on the open socket, if client C is connected and `send` succeeds; in every
-- other case nothing changes and the result is false.
pub client_c_send_command-Sends :
    (c : Client) (text : Bytes) (ok : Bool)
    → Sends c text (client_c_send_command c (some text) ok)
      × ((client_c_send_command c (some text) ok).1 ≡ (client_c_is_connected c && ok))
unfolding client_c_send_command client_c_is_connected
client_c_send_command-Sends c text ok = elim (Option-cases c.tcp_socket) [
  | inl e ↦ (inr (ground arith), ground arith)
  | inr (fd, e) ↦ elim (Bool-cases (client_c_is_connected c && ok)) [
    | inl y ↦ (inl (fd, e, ground arith), ground arith)
    | inr n ↦ (inr (ground arith), ground arith)
  ]
]
