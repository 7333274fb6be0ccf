-- ===== src/Gateway/Samples.antt =====
-- Data for the runs of the gateway.
use smart_home_weather_monit.Base.{◌≡◌, refl, true, some, ◌∷◌, ◌++◌}
use smart_home_weather_monit.Base.Int.{pos}
use smart_home_weather_monit.Text.{Bytes, bytes, str_eq}
use smart_home_weather_monit.Cjson.{Cjson}
use smart_home_weather_monit.Cjson.Sample.{Json, text, number, object, end, field, reading}
use smart_home_weather_monit.ClientC.{initial_client, connected, client_c_is_connected}
use smart_home_weather_monit.Gateway.{Gateway, initial_gateway}
use smart_home_weather_monit.Gateway.Fifo.{ReadEnv, WriteEnv}
use smart_home_weather_monit.Gateway.Requests.{SwitchEnv}
use smart_home_weather_monit.Gateway.Delivery.{IsOnline}

abbrev pub ready : WriteEnv
ready = record { has_directory = true; found = true; opened = true; written = some 6 }

abbrev pub switching : SwitchEnv
switching = record { fifo = ready; sends = true }

abbrev pub online : Gateway
online = record initial_gateway {
  client_c_initialized = true;
  client = record initial_client { tcp_socket = some 7; tcp_running = true; state = connected };
}

pub online-IsOnline : IsOnline online 7
unfolding client_c_is_connected
online-IsOnline = record { ready = refl; online = refl; socket = refl }

abbrev pub filled : ReadEnv
filled = record { found = true; opened = true; content = some (bytes "{}" ++ b'\n' ∷ bytes "{") }

-- A request to switch the LED on.
abbrev pub action : Json
action = number (pos 1) (bytes "1.0") (bytes "1")

abbrev pub paras : Json
paras = object (field (bytes "action") action end)

abbrev pub led_request : Json
led_request = object (
    field (bytes "service_id") (text (bytes "Control"))
      (field (bytes "command_name") (text (bytes "control_led")) (field (bytes "paras") paras end)))

abbrev pub switching_cjson : Cjson
switching_cjson = reading (bytes "{1}") led_request

abbrev pub doc_1 : Bytes
doc_1 = bytes "{1}"

pub led_request-parse : switching_cjson.parse doc_1 ≡ some led_request
unfolding str_eq
led_request-parse = refl

abbrev pub account : Json
account =
    object
      (field (bytes "deviceId") (text (bytes "d")) (field (bytes "secret") (text (bytes "s")) end))
