-- ===== src/Gateway/Reports.antt =====
-- `Test_propertiesReport`: the three services that the gateway reports.
use smart_home_weather_monit.Base.{
  ◌≡◌, arith, ℕ, ◌+◌, ◌%◌, Option, none, some, List, [], ◌∷◌, ◌++◌, replicate,
}
use smart_home_weather_monit.Base.Int.{ℤ, pos}
use smart_home_weather_monit.Text.{Bytes, bytes, text_of}
use smart_home_weather_monit.Cjson.{Cjson}
use smart_home_weather_monit.ClientC.Weather.{Weather}
use smart_home_weather_monit.ClientC.WeatherJson.{parse_weather_json}
use smart_home_weather_monit.Gateway.{Gateway, reported, message_reported, act}
use smart_home_weather_monit.Gateway.Fifo.{ReadEnv, read_weather, read_weather_from_fifo}

-- The values that are added to an object: cJSON_AddNumberToObject, cJSON_AddStringToObject.
pub data Value : Type 0 where
  number : ℤ → Value
  tenths : ℕ → Value  -- a double that is the number divided by 10
  text : Bytes → Value

-- `cJSON_Print` of an object with the given members; `none` is NULL.
abbrev pub Printer : Type 0
Printer = List (Bytes × Value) → Option Bytes

abbrev pub default_weather : Weather
default_weather = record {
  city = bytes "Unknown" ++ replicate 57 0;
  weather = bytes "Unknown" ++ replicate 57 0;
  temperature = bytes "25.5" ++ replicate 28 0;
  humidity = bytes "60" ++ replicate 30 0;
}

-- The members of the smoke service; the first two arguments are what `rand` returns.
unfoldable pub smoke_members : ℕ → ℕ → ℤ → List (Bytes × Value)
smoke_members r1 r2 alarm =
    (bytes "alarm", number alarm)
    ∷ (bytes "smokeConcentration", tenths (r1 % 900 + 100))
    ∷ (bytes "temperature", text (bytes "25.5"))
    ∷ (bytes "humidity", number (pos (r2 % 100)))
    ∷ []

unfoldable pub control_members : ℤ → ℤ → List (Bytes × Value)
control_members led buzzer =
    (bytes "led_status", number led) ∷ (bytes "buzzer_status", number buzzer) ∷ []

-- The members of the weather service; `none` where a buffer holds no NUL.
unfoldable pub weather_members : Weather → Option (List (Bytes × Value))
unfolding text_of
weather_members w = elim (text_of w.city) [
  | none ↦ none
  | some city ↦ elim (text_of w.weather) [
    | none ↦ none
    | some weather ↦ elim (text_of w.temperature) [
      | none ↦ none
      | some temperature ↦ elim (text_of w.humidity) [
        | none ↦ none
        | some humidity ↦ some (
            (bytes "city", text city)
            ∷ (bytes "weather", text weather)
            ∷ (bytes "temperature", text temperature)
            ∷ (bytes "humidity", text humidity)
            ∷ (bytes "wind_direction", text (bytes "North"))
            ∷ [])
      ]
    ]
  ]
]

-- The buffers after the FIFO was read: the parsed weather, or the defaults.
unfoldable pub current_weather : (c : Cjson) → Option Bytes → Option Weather
unfolding parse_weather_json
current_weather c none = some default_weather
current_weather c (some json) = elim (parse_weather_json c (some json) (some default_weather)) [
  | none ↦ none
  | some (none, ok) ↦ none
  | some (some w, ok) ↦ some w
]

pub record ReportEnv : Type 0 where
  pub fifo : ReadEnv
  pub first_random : ℕ
  pub second_random : ℕ

-- The first part of `Test_propertiesReport`, up to the payload of the smoke service.
abbrev pub smoke_payload : Printer → ReportEnv → Gateway → Option Bytes
smoke_payload print env g = print (smoke_members env.first_random env.second_random g.alarm_value)

-- The three services of a report to the cloud, the first with the payload that is ready.
abbrev pub services_of :
    Printer → Option Bytes → Gateway → List (Bytes × Value) → List (Bytes × Option Bytes)
services_of print smoke g members =
    (bytes "smokeDetector", smoke)
    ∷ (bytes "Weather", print members)
    ∷ (bytes "Control", print (control_members g.led_status g.buzzer_status))
    ∷ []

abbrev pub services :
    Printer → ReportEnv → Gateway → List (Bytes × Value) → List (Bytes × Option Bytes)
services print env g members = services_of print (smoke_payload print env g) g members

-- The rest of `Test_propertiesReport`, from the reading of the FIFO on; `none` is undefined behaviour.
unfoldable pub finish_report : Cjson → Printer → ReadEnv → Option Bytes → Gateway → Option Gateway
unfolding read_weather_from_fifo current_weather weather_members control_members
finish_report c print fifo smoke g = elim (current_weather c (read_weather_from_fifo fifo g).1) [
  | none ↦ none
  | some w ↦ elim (weather_members w) [
    | none ↦ none
    | some members ↦ some (
        act (read_weather_from_fifo fifo g).0 (
          reported (
            (bytes "smokeDetector", smoke)
            ∷ (bytes "Weather", print members)
            ∷ (bytes "Control", print (control_members g.led_status g.buzzer_status))
            ∷ [])
          ∷ []))
  ]
]

-- `Test_propertiesReport`, when no other thread acts between its two parts.
unfoldable pub properties_report : Cjson → Printer → ReportEnv → Gateway → Option Gateway
unfolding finish_report smoke_members
properties_report c print env g = finish_report c print env.fifo (smoke_payload print env g) g

-- What is reported when the FIFO holds a text that is parsed.
pub properties_report_lem :
    (c : Cjson) (print : Printer) (env : ReportEnv) (g : Gateway) (json : Bytes) (w : Weather)
    (members : List (Bytes × Value))
    → read_weather env.fifo g.last_weather ≡ (json, some json)
    → current_weather c (some json) ≡ some w
    → weather_members w ≡ some members
    → properties_report c print env g
      ≡ some (act (record g { last_weather = json }) (reported (services print env g members) ∷ []))
unfolding properties_report finish_report
properties_report_lem c print env g json w members e f h = ground (arith, e, f, h)

-- `Test_messageReport`
abbrev pub message_report : Gateway → Gateway
message_report g = act g (message_reported ∷ [])

-- `Test_batchPropertiesReport`, which only prints.
abbrev pub batch_properties_report : Gateway → Gateway
batch_properties_report g = g
