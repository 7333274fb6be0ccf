-- ===== src/ClientC/WeatherJson.antt =====
-- `parse_weather_json`: from the JSON text of the FIFO back to four buffers.
use smart_home_weather_monit.Base.{
  ℕ, Bool, true, false, Option, none, some, ◌++◌, set, if◌then◌else◌,
}
use smart_home_weather_monit.Text.{Bytes, bytes, strncpy, strcpy, snprintf}
use smart_home_weather_monit.Cjson.{Cjson}
use smart_home_weather_monit.ClientC.Weather.{Weather}

-- `strncpy(buffer, value, n); buffer[n] = '\0'`, of a pointer that may be NULL.
unfoldable pub copy_text : ℕ → Bytes → Option Bytes → Option Bytes
unfolding strncpy
copy_text n buffer none = none
copy_text n buffer (some value) = some (set (strncpy n buffer value) n 0)

module _ (c : Cjson) where
  open c use {
    Node, parse, get_object_item, is_string, is_number, value_string, print_tenths, print_whole,
  }

  -- A string of the document, or "Unknown".
  unfoldable pub text_or_unknown : Bytes → Option Node → Option Bytes
  unfolding copy_text strcpy
  text_or_unknown buffer none = strcpy buffer (bytes "Unknown")
  text_or_unknown buffer (some item) =
      if is_string item
      then copy_text 63 buffer (value_string item)
      else strcpy buffer (bytes "Unknown")

  -- A string of the document, its number as printed, or the default.
  unfoldable pub number_or : Bytes → (Node → Bytes) → Bytes → Option Node → Option Bytes
  unfolding copy_text strcpy
  number_or default print buffer none = strcpy buffer default
  number_or default print buffer (some item) =
      if is_string item
      then copy_text 31 buffer (value_string item)
      else if is_number item
      then strcpy buffer (snprintf 31 (print item))
      else strcpy buffer default

  unfoldable pub fill_weather : Weather → Node → Option Weather
  unfolding text_or_unknown number_or
  fill_weather w root = elim (text_or_unknown w.city (get_object_item root (bytes "city"))) [
    | none ↦ none
    | some city ↦ elim (text_or_unknown w.weather (get_object_item root (bytes "weather"))) [
      | none ↦ none
      | some weather ↦
          elim (number_or (bytes "25.0") print_tenths w.temperature
            (get_object_item root (bytes "temperature"))) [
              | none ↦ none
              | some temperature ↦
                  elim (number_or (bytes "60%") (λ n. print_whole n ++ bytes "%") w.humidity
                    (get_object_item root (bytes "humidity"))) [
                      | none ↦ none
                      | some humidity ↦ some (record {
                        city = city;
                        weather = weather;
                        temperature = temperature;
                        humidity = humidity;
                      })
                    ]
            ]
    ]
  ]

  -- The buffers after the call and its result; `none` is undefined behaviour. A `none` among the
  -- arguments is a NULL pointer, which for the four buffers stands for any of them.
  unfoldable pub parse_weather_json : Option Bytes → Option Weather → Option (Option Weather × Bool)
  unfolding fill_weather
  parse_weather_json none w = some (w, false)
  parse_weather_json (some text) none = some (none, false)
  parse_weather_json (some text) (some w) = elim (parse text) [
    | none ↦ some (some w, false)
    | some root ↦ elim (fill_weather w root) [
      | none ↦ none
      | some filled ↦ some (some filled, true)
    ]
  ]
