-- ===== src/Gateway/MainTests.antt =====
-- Runs of the gateway's main function and its parts.
use smart_home_weather_monit.Base.{◌≡◌, refl, true, false, none, some, [], ◌∷◌, arith}
use smart_home_weather_monit.Base.Int.{pos}
use smart_home_weather_monit.Text.{bytes, str_eq}
use smart_home_weather_monit.Cjson.{Cjson, HasString}
use smart_home_weather_monit.Cjson.Sample.{Json, text, object, end, field, reading}
use smart_home_weather_monit.ClientC.{initial_client, connected}
use smart_home_weather_monit.Gateway.{initial_gateway, config_text, config_number}
use smart_home_weather_monit.Gateway.Settings.{
  set_connect_config, set_auth_config, settings_reach_sdk,
}
use smart_home_weather_monit.Gateway.Main.{Round, Environment, main_loop, gateway_main}
use smart_home_weather_monit.Gateway.Typed.{Reports, gateway_main-Reports}
use smart_home_weather_monit.Gateway.Exit.{Loops, expected, main_loop-Loops}
use smart_home_weather_monit.Gateway.Samples.{online, filled, doc_1, account}

abbrev silent : Cjson
silent = reading doc_1 account

abbrev offline_round : Round
offline_round = record {
  client = initial_client;
  alarm_value = pos 0;
  led_status = pos 0;
  buzzer_status = pos 1;
  report = record { fifo = filled; first_random = 1; second_random = 2 };
}

main_loop-Loops_example :
    Loops silent
      (λ ms. none)
      (expected 1 (offline_round ∷ offline_round ∷ []))
      (main_loop silent (λ ms. none) online 1 (offline_round ∷ offline_round ∷ []))
main_loop-Loops_example =
    main_loop-Loops silent (λ ms. none) online 1 (offline_round ∷ offline_round ∷ []) refl

-- A cloud that does not accept the connection.
abbrev refusing : Environment
refusing = record {
  config = some doc_1;
  creates_thread = true;
  creates_listener = true;
  creates_handler = false;
  sdk_starts = true;
  sdk_connects = false;
  rounds = [];
}

-- A file with a device and the address of the cloud.
abbrev settings : Json
settings = object (
    field (bytes "deviceId") (text (bytes "d")) (
      field (bytes "secret") (text (bytes "s"))
        (field (bytes "serverUri") (text (bytes "ssl://iot.cn:8883")) end)))

settings-parse : (reading doc_1 settings).parse doc_1 ≡ some settings
unfolding str_eq
settings-parse = refl

settings-user : HasString (reading doc_1 settings) settings (bytes "deviceId") (bytes "d")
unfolding str_eq
settings-user = (text (bytes "d"), refl, refl, refl)

settings-secret : HasString (reading doc_1 settings) settings (bytes "secret") (bytes "s")
unfolding str_eq
settings-secret = (text (bytes "s"), refl, refl, refl)

settings-uri :
    HasString (reading doc_1 settings) settings (bytes "serverUri") (bytes "ssl://iot.cn:8883")
unfolding str_eq
settings-uri = (text (bytes "ssl://iot.cn:8883"), refl, refl, refl)

settings_reach_sdk_example :
    (set_auth_config
      (set_connect_config (reading doc_1 settings) initial_gateway (some doc_1))).actions
    ≡ config_text (bytes "EN_IOTA_CFG_MQTT_ADDR") (bytes "iot.cn")
      ∷ config_number (bytes "EN_IOTA_CFG_MQTT_PORT") 8883
      ∷ config_text (bytes "EN_IOTA_CFG_DEVICEID") (bytes "d")
      ∷ config_text (bytes "EN_IOTA_CFG_DEVICESECRET") (bytes "s")
      ∷ config_number (bytes "EN_IOTA_CFG_KEEP_ALIVE_TIME") 120
      ∷ config_number (bytes "EN_IOTA_CFG_CONNECT_TIMEOUT") 30
      ∷ config_number (bytes "EN_IOTA_CFG_RETRY_INTERVAL") 10
      ∷ config_number (bytes "EN_IOTA_CFG_QOS") 1
      ∷ []
settings_reach_sdk_example =
    settings_reach_sdk (reading doc_1 settings) initial_gateway doc_1 settings (bytes "d")
      (bytes "s") (bytes "iot.cn") (bytes "8883") settings-parse settings-user settings-secret
      settings-uri
      ((λ e. omega arith), ((λ e. omega arith), ((λ e. omega arith), ((λ e. omega arith), tt))))

-- A cloud that accepts the connection, and a round in which client C is connected.
abbrev accepting : Environment
accepting = record refusing {
  sdk_connects = true;
  rounds =
      record {
        client = record initial_client {
          state = connected;
          tcp_socket = some 7;
          tcp_running = true;
        };
        alarm_value = pos 1;
        led_status = pos 1;
        buzzer_status = pos 0;
        report = record { fifo = filled; first_random = 1; second_random = 2 };
      }
      ∷ [];
}

gateway_main-Reports_example :
    Reports
      (reading doc_1 account)
      (λ ms. none)
      (gateway_main (reading doc_1 account) (λ ms. none) accepting initial_gateway)
gateway_main-Reports_example =
    gateway_main-Reports (reading doc_1 account) (λ ms. none) accepting initial_gateway tt
