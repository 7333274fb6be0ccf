-- ===== src/Forecast/Extract.antt =====
-- From the parsed reply to the weather report: the lookups of `get_weather_data`, field by field.
use smart_home_weather_monit.Base.{◌==◌, not, ◌||◌, Option, none, some, ◌++◌, if◌then◌else◌}
use smart_home_weather_monit.Text.{Bytes, bytes, snprintf}
use smart_home_weather_monit.Cjson.{Cjson}

-- The strings that the report is printed from.
pub record Report : Type 0 where
  pub city_name : Bytes
  pub weather : Bytes
  pub temperature : Bytes
  pub humidity : Bytes
  pub wind_direction : Bytes
  pub wind_speed : Bytes
  pub wind_scale : Bytes

infixl 5 ◌>>=◌
abbrev pub ◌>>=◌ {ℓ κ} : {A : Type ℓ} {B : Type κ} → Option A → (A → Option B) → Option B
none >>= f = none
some a >>= f = f a

abbrev pub not_available : Bytes
not_available = bytes "N/A"

-- `if (x == NULL) x = "N/A"`
abbrev pub or_not_available : Option Bytes → Bytes
or_not_available none = not_available
or_not_available (some t) = t

module _ (c : Cjson) where
  open c use {
    Node, get_object_item, is_array, is_string, is_number, array_size, array_item, value_string,
    print_int,
  }

  -- `item != NULL && cJSON_IsString(item)`, then its `valuestring`.
  unfoldable pub text_item : Option Node → Option Bytes
  text_item none = none
  text_item (some item) = if is_string item then value_string item else none

  -- The humidity may be a number, which is printed into ten bytes.
  unfoldable pub humidity_item : Option Node → Option Bytes
  humidity_item none = none
  humidity_item (some item) =
      if is_string item
      then value_string item
      else if is_number item
      then some (snprintf 10 (print_int item))
      else none

  -- `cJSON_IsArray(results)` of a pointer that may be NULL, with elements.
  unfoldable pub filled_array : Option Node → Option Node
  filled_array none = none
  filled_array (some results) =
      if not (is_array results) || array_size results == 0 then none else some results

  -- The report from the two objects of the first result.
  unfoldable pub report_of : Node → Node → Option Report
  unfolding text_item humidity_item
  report_of location now = do
    city_name ← text_item (get_object_item location (bytes "name"))
    weather ← text_item (get_object_item now (bytes "text"))
    temperature ← text_item (get_object_item now (bytes "temperature"))
    some (record {
      city_name = city_name;
      weather = weather;
      temperature = temperature;
      humidity = or_not_available (humidity_item (get_object_item now (bytes "humidity")));
      wind_direction = or_not_available (text_item (get_object_item now (bytes "wind_direction")));
      wind_speed = or_not_available (text_item (get_object_item now (bytes "wind_speed")));
      wind_scale = or_not_available (text_item (get_object_item now (bytes "wind_scale")));
    })

  -- All lookups below the root; `none` is a `return NULL`.
  unfoldable pub extract : Node → Option Report
  unfolding filled_array report_of
  extract root = do
    results ← filled_array (get_object_item root (bytes "results"))
    city_data ← array_item results 0
    location ← get_object_item city_data (bytes "location")
    now ← get_object_item city_data (bytes "now")
    report_of location now

-- The format of the last `snprintf`.
unfoldable pub format_report : Report → Bytes
format_report r =
    bytes " 城市: "
    ++ (r.city_name
        ++ (bytes "\n 天气: "
            ++ (r.weather
                ++ (bytes "\n 温度: "
                    ++ (r.temperature
                        ++ (bytes "°C\n 湿度: "
                            ++ (r.humidity
                                ++ (bytes "%\n 风向: "
                                    ++ (r.wind_direction
                                        ++ (bytes "\n 风速: "
                                            ++ (r.wind_speed
                                                ++ (bytes "\n 风力: "
                                                    ++ (r.wind_scale ++ bytes "\n")))))))))))))

-- The returned string: `malloc(400)` and `snprintf(weather_str, 400, …)`.
unfoldable pub weather_string : Report → Bytes
unfolding format_report
weather_string r = snprintf 400 (format_report r)
