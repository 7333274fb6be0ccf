-- ===== src/System/Cloud.antt =====
-- What the gateway reports of a weather text that cJSON reads.
use smart_home_weather_monit.Base.{
  ◌≤◌, ◌≡◌, refl, true, false, some, [], ◌∷◌, ◌++◌, arith, length, List, set,
}
use smart_home_weather_monit.Text.{Bytes, bytes, strncpy}
use smart_home_weather_monit.Text.Buffers.{IsText, text_of-set-strncpy}
use smart_home_weather_monit.Cjson.{Cjson, HasString}
use smart_home_weather_monit.ClientC.{Client, unknown}
use smart_home_weather_monit.ClientC.Commands.{parse_command_type}
use smart_home_weather_monit.ClientC.Messages.{
  Fifos, is_confirmation, is_weather, handle_weather, handle_text,
}
use smart_home_weather_monit.ClientC.Weather.{Weather}
use smart_home_weather_monit.ClientC.WeatherJson.{
  fill_weather, text_or_unknown, number_or, parse_weather_json,
}
use smart_home_weather_monit.Gateway.Reports.{
  Value, default_weather, weather_members, current_weather,
}

-- cJSON reads the text as an object with the four strings.
pub record ReadsAs (c : Cjson) (json city weather temperature humidity : Bytes) : Type 0 where
  pub root : c.Node
  pub parsed : c.parse json ≡ some root
  pub has_city : HasString c root (bytes "city") city
  pub has_weather : HasString c root (bytes "weather") weather
  pub has_temperature : HasString c root (bytes "temperature") temperature
  pub has_humidity : HasString c root (bytes "humidity") humidity

-- The members of the weather service in the cloud.
abbrev pub cloud_weather : Bytes → Bytes → Bytes → Bytes → List (Bytes × Value)
cloud_weather city weather temperature humidity =
    (bytes "city", Value.text city)
    ∷ (bytes "weather", Value.text weather)
    ∷ (bytes "temperature", Value.text temperature)
    ∷ (bytes "humidity", Value.text humidity)
    ∷ (bytes "wind_direction", Value.text (bytes "North"))
    ∷ []

module _ (c : Cjson) (root : c.Node) (key b t : Bytes) (v : HasString c root key t) where
  text_string : text_or_unknown c b (c.get_object_item root key) ≡ some (set (strncpy 63 b t) 63 0)
  unfolding text_or_unknown
  text_string = ground (arith, v.1, v.2, v.3)

  number_string :
      (default : Bytes) (print : c.Node → Bytes)
      → number_or c default print b (c.get_object_item root key) ≡ some (set (strncpy 31 b t) 31 0)
  unfolding number_or
  number_string default print = ground (arith, v.1, v.2, v.3)

-- Four texts that fit their buffers come out of them again.
module _ (c : Cjson) {json a b t h : Bytes} (v : ReadsAs c json a b t h) where
  -- The buffers that the four strings fill.
  abbrev pub filled : Weather
  filled = record {
    city = set (strncpy 63 default_weather.city a) 63 0;
    weather = set (strncpy 63 default_weather.weather b) 63 0;
    temperature = set (strncpy 31 default_weather.temperature t) 31 0;
    humidity = set (strncpy 31 default_weather.humidity h) 31 0;
  }

  fill_weather-ReadsAs : fill_weather c default_weather v.root ≡ some filled
  unfolding fill_weather
  fill_weather-ReadsAs =
      rw
        (
          text_string c v.root (bytes "city") default_weather.city a v.has_city,
          text_string c v.root (bytes "weather") default_weather.weather b v.has_weather,
          number_string c v.root (bytes "temperature") default_weather.temperature t
              v.has_temperature (bytes "25.0") c.print_tenths,
          number_string c v.root (bytes "humidity") default_weather.humidity h v.has_humidity
              (bytes "60%") (λ n. c.print_whole n ++ bytes "%"),
          fill_weather,
        )
        refl

  parse_weather_json-ReadsAs :
      parse_weather_json c (some json) (some default_weather) ≡ some (some filled, true)
  unfolding parse_weather_json
  parse_weather_json-ReadsAs =
      rw (v.parsed, parse_weather_json) (rw (fill_weather-ReadsAs, parse_weather_json) refl)

  pub current_weather-ReadsAs : current_weather c (some json) ≡ some filled
  unfolding current_weather
  current_weather-ReadsAs = rw (parse_weather_json-ReadsAs, current_weather) refl

  pub weather_members-filled :
      IsText a
      → length a ≤ 63
      → IsText b
      → length b ≤ 63
      → IsText t
      → length t ≤ 31
      → IsText h
      → length h ≤ 31
      → weather_members filled ≡ some (cloud_weather a b t h)
  unfolding weather_members
  weather_members-filled ia la ib lb it lt ih lh =
      rw
        (
          text_of-set-strncpy 63 default_weather.city a refl ia la,
          text_of-set-strncpy 63 default_weather.weather b refl ib lb,
          text_of-set-strncpy 31 default_weather.temperature t refl it lt,
          text_of-set-strncpy 31 default_weather.humidity h refl ih lh,
          weather_members,
        )
        refl

-- A text that is neither a confirmation nor a command, and has a word of a report.
pub handle_text-weather :
    (fifos : Fifos) (c : Client) (text : Bytes)
    → is_confirmation text ≡ false
    → parse_command_type (some text) ≡ unknown
    → is_weather text ≡ true
    → handle_text fifos c text ≡ handle_weather fifos c text
unfolding handle_text
handle_text-weather fifos c text a b d =
    rw (a, handle_text) (rw (b, handle_text) (rw (d, handle_text) refl))
