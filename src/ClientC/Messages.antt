-- ===== src/ClientC/Messages.antt =====
-- `parse_and_handle_message`: what client C does with a message of the server.
use smart_home_weather_monit.Base.{
  Bool, true, false, ◌&&◌, ◌||◌, Option, none, some, [], ◌∷◌, if◌then◌else◌,
}
use smart_home_weather_monit.Text.{Bytes, bytes, contains}
use smart_home_weather_monit.ClientC.{
  Client, Command, unknown, command_called, weather_called, fifo_written, Fifo, weather_fifo,
  command_fifo, emit,
}
use smart_home_weather_monit.ClientC.Commands.{parse_command_type}
use smart_home_weather_monit.ClientC.Weather.{parse_weather, weather_json}

-- Whether `access` finds a FIFO, and `open` for writing succeeds (a process reads from it).
pub record Fifos : Type 0 where
  pub found : Fifo → Bool
  pub opened : Fifo → Bool

-- The text and a newline, written if the FIFO can be opened.
abbrev pub write_fifo : Fifos → Client → Fifo → Bytes → Client
write_fifo env c f text = if env.found f && env.opened f then emit c (fifo_written f text) else c

abbrev pub call_command : Client → Command → Client
call_command c k = elim c.config.command_callback [
  | none ↦ c
  | some f ↦ emit c (command_called f k)
]

abbrev pub call_weather : Client → Bytes → Client
call_weather c json = elim c.config.weather_callback [
  | none ↦ c
  | some f ↦ emit c (weather_called f json)
]

-- The answer of the server to the identity.
unfoldable pub is_confirmation : Bytes → Bool
unfolding contains
is_confirmation message =
    contains message (bytes "CONNECTED") || contains message (bytes "connected")

-- One of the words of a report.
unfoldable pub is_weather : Bytes → Bool
unfolding contains
is_weather message =
    contains message (bytes "城市")
    || contains message (bytes "天气")
    || contains message (bytes "温度")
    || contains message (bytes "湿度")

unfoldable pub handle_command : Fifos → Client → Command → Bytes → Client
handle_command env c k message = call_command (write_fifo env c command_fifo message) k

unfoldable pub handle_weather : Fifos → Client → Bytes → Option Client
unfolding parse_weather weather_json
handle_weather env c message = elim (parse_weather message) [
  | none ↦ none
  | some w ↦ elim (weather_json w) [
    | none ↦ none
    | some json ↦ some (call_weather (write_fifo env c weather_fifo json) json)
  ]
]

abbrev pub is_unknown : Command → Bool
is_unknown unknown = true
is_unknown _ = false

-- A text that is not empty.
unfoldable pub handle_text : Fifos → Client → Bytes → Option Client
unfolding is_confirmation is_weather parse_command_type handle_command handle_weather
handle_text env c message =
    if is_confirmation message
    then some c
    else if is_unknown (parse_command_type (some message))
    then (if is_weather message then handle_weather env c message else some c)
    else some (handle_command env c (parse_command_type (some message)) message)

-- `none` as a message is NULL; as a result it is behaviour that C leaves undefined.
unfoldable pub parse_and_handle_message : Fifos → Client → Option Bytes → Option Client
unfolding handle_text
parse_and_handle_message env c none = some c
parse_and_handle_message env c (some []) = some c
parse_and_handle_message env c (some (b ∷ bs)) = handle_text env c (b ∷ bs)
