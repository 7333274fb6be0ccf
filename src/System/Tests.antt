-- ===== src/System/Tests.antt =====
-- A report of the weather of Beijing on its way through the system.
use smart_home_weather_monit.Base.{◌≡◌, refl, true, false, none, some, [], ◌∷◌, ◌++◌, arith}
use smart_home_weather_monit.Text.{Bytes, bytes, contains, str_eq}
use smart_home_weather_monit.Cjson.{Cjson}
use smart_home_weather_monit.Cjson.Sample.{Json, text, object, end, field, reading}
use smart_home_weather_monit.Forecast.Extract.{Report, weather_string}
use smart_home_weather_monit.ClientC.{
  Client, initial_client, weather_fifo, command_fifo, led_on, connected, client_c_is_connected,
  fifo_written, emit, unknown,
}
use smart_home_weather_monit.ClientC.Commands.{parse_command_type}
use smart_home_weather_monit.ClientC.Messages.{Fifos, is_confirmation, parse_and_handle_message}
use smart_home_weather_monit.ClientC.Thread.{message_text}
use smart_home_weather_monit.ClientC.Weather.{Weather, parse_weather, weather_json, json_text}
use smart_home_weather_monit.Gateway.{initial_gateway, reported, act}
use smart_home_weather_monit.Gateway.Reports.{services, Printer, ReportEnv, properties_report}
use smart_home_weather_monit.System.Report.{IsPlain, percent}
use smart_home_weather_monit.System.RoundTrip.{report-parse_weather}
use smart_home_weather_monit.System.Cloud.{ReadsAs, cloud_weather}
use smart_home_weather_monit.System.Delivery.{json, report_delivered}

abbrev beijing : Report
beijing = record {
  city_name = bytes "北京";
  weather = bytes "晴";
  temperature = bytes "25";
  humidity = bytes "60";
  wind_direction = bytes "南";
  wind_speed = bytes "8";
  wind_scale = bytes "2";
}

beijing-IsPlain : IsPlain beijing (bytes "60%")
unfolding smart_home_weather_monit.Forecast.Extract.format_report
beijing-IsPlain = record {
  city = omega arith;
  city_short = omega arith;
  weather = omega arith;
  weather_short = omega arith;
  temperature = ((refl, (refl, tt)), omega arith, omega arith);
  humidity = percent (bytes "60%") ((refl, (refl, tt)), omega arith, omega arith) refl;
  wind_direction = (omega arith, omega arith);
  wind_speed = (omega arith, omega arith);
  wind_scale = (omega arith, omega arith);
  whole = omega arith;
}

report-parse_weather_example :
    (w : Weather) × (parse_weather (message_text (weather_string beijing)) ≡ some w)
    × (weather_json w ≡ some (json_text (bytes "北京") (bytes "晴") (bytes "25") (bytes "60%")))
report-parse_weather_example = report-parse_weather beijing-IsPlain

-- cJSON reads the text that client C has written.
abbrev json_line : Bytes
json_line = json beijing-IsPlain

abbrev document : Json
document = object (
    field (bytes "city") (text (bytes "北京")) (
      field (bytes "weather") (text (bytes "晴")) (
        field (bytes "temperature") (text (bytes "25"))
          (field (bytes "humidity") (text (bytes "60%")) end))))

abbrev weather_cjson : Cjson
weather_cjson = reading json_line document

weather_cjson-ReadsAs :
    ReadsAs weather_cjson json_line (bytes "北京") (bytes "晴") (bytes "25") (bytes "60%")
unfolding str_eq
weather_cjson-ReadsAs = record {
  root = document;
  parsed = refl;
  has_city = (text (bytes "北京"), refl, refl, refl);
  has_weather = (text (bytes "晴"), refl, refl, refl);
  has_temperature = (text (bytes "25"), refl, refl, refl);
  has_humidity = (text (bytes "60%"), refl, refl, refl);
}

abbrev open_fifos : Fifos
open_fifos = record { found = λ f. true; opened = λ f. true }

abbrev online : Client
online = record initial_client { tcp_socket = some 7; tcp_running = true }

abbrev print_nothing : Printer
print_nothing members = none

abbrev waiting_line : ReportEnv
waiting_line = record {
  fifo = record { found = true; opened = true; content = some (json_line ++ b'\n' ∷ []) };
  first_random = 0;
  second_random = 0;
}

beijing-no_confirmation : is_confirmation (message_text (weather_string beijing)) ≡ false
unfolding is_confirmation message_text weather_string contains
beijing-no_confirmation = refl

beijing-no_command : parse_command_type (some (message_text (weather_string beijing))) ≡ unknown
unfolding parse_command_type message_text weather_string contains
    smart_home_weather_monit.ClientC.Commands.names
beijing-no_command = refl

report_delivered_example :
    (parse_and_handle_message open_fifos online (some (message_text (weather_string beijing)))
      ≡ some (emit online (fifo_written weather_fifo json_line)))
    × (properties_report weather_cjson print_nothing waiting_line initial_gateway
        ≡ some (
            act
              (record initial_gateway { last_weather = json_line })
              (reported (
                  services print_nothing waiting_line initial_gateway
                    (cloud_weather (bytes "北京") (bytes "晴") (bytes "25") (bytes "60%")))
                ∷ [])))
report_delivered_example =
    report_delivered beijing-IsPlain open_fifos online weather_cjson print_nothing waiting_line
      initial_gateway beijing-no_confirmation beijing-no_command refl refl refl
      weather_cjson-ReadsAs refl refl refl
