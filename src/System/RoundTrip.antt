-- ===== src/System/RoundTrip.antt =====
-- forecast.c prints a report, and client C parses it: the four values that client C keeps.
use smart_home_weather_monit.Base.{
  ◌≤◌, ◌≡◌, refl, ap, ◌∙◌, some, List, [], ◌∷◌, ◌++◌, arith, length, length-append, take, take_all,
  drop,
}
use smart_home_weather_monit.Text.{Bytes, bytes, c_text, text_of, strncpy}
use smart_home_weather_monit.Text.Buffers.{c_text_lem, text_of-strncpy}
use smart_home_weather_monit.Forecast.Extract.{Report, format_report, weather_string}
use smart_home_weather_monit.ClientC.Thread.{drop_newline, message_text}
use smart_home_weather_monit.ClientC.Weather.{
  Weather, initial_weather, set_humidity, set_temperature, handle_line, handle_lines, parse_weather,
  json_text, weather_json,
}
use smart_home_weather_monit.ClientC.Weather.Bounds.{length-json_text, weather_json-texts}
use smart_home_weather_monit.ClientC.Weather.Lines.{
  IsWord, IsWord-IsText, value_word, value_of, city_line, weather_line, temperature_line,
  humidity_line, wind_direction_line, wind_speed_line, wind_scale_line, set_temperature_number,
  set_humidity_number, set_humidity_missing,
}
use smart_home_weather_monit.System.Report.{
  percent, missing, IsPlain, city_text, weather_text, temperature_text, humidity_text,
  direction_text, speed_text, scale_text, lines, body, format_report-body, temperature-IsWord,
  percent-IsWord, body-IsText, tokens-body,
}

pub drop_newline-append : (t : Bytes) → drop_newline (t ++ b'\n' ∷ []) ≡ t
unfolding drop_newline
drop_newline-append [] = refl
drop_newline-append (c ∷ []) = refl
drop_newline-append (c ∷ d ∷ t) = ap (◌∷◌ c) (drop_newline-append (d ∷ t))

handle_lines-step :
    (w next last : Weather) (line : Bytes) (rest : List Bytes)
    → handle_line w line ≡ some next
    → handle_lines next rest ≡ some last
    → handle_lines w (line ∷ rest) ≡ some last
unfolding handle_lines
handle_lines-step w next last line rest e f = ground arith

handle_lines_end : (w : Weather) → handle_lines w [] ≡ some w
unfolding handle_lines
handle_lines_end w = refl

module _ {r : Report} {shown : Bytes} (v : IsPlain r shown) where
  humidity_kept :
      (h : Bytes) × (set_humidity initial_weather.humidity (value_of (r.humidity ++ bytes "%"))
        ≡ some h)
      × (text_of h ≡ some shown)
  humidity_kept = rw (value_word (r.humidity ++ bytes "%") (percent-IsWord v)) (elim v.humidity [
    | percent s n e ↦
        rw e (set_humidity_number initial_weather.humidity r.humidity refl n.0 n.1 n.2)
    | missing s m e ↦ rw (m, e) (set_humidity_missing initial_weather.humidity refl)
  ])

  temperature_kept :
      (t : Bytes) × (set_temperature initial_weather.temperature
          (value_of (r.temperature ++ bytes "°C"))
        ≡ some t)
      × (text_of t ≡ some r.temperature)
  temperature_kept = rw (value_word (r.temperature ++ bytes "°C") (temperature-IsWord v)) (
      set_temperature_number initial_weather.temperature r.temperature (bytes "°C") v.temperature.0
        v.temperature.1 v.temperature.2 (refl, (refl, (refl, tt))))

  -- The buffers when the lines have been handled.
  abbrev parsed : Bytes → Weather
  parsed h = record {
    city = strncpy 63 initial_weather.city (value_of r.city_name);
    weather = strncpy 63 initial_weather.weather (value_of r.weather);
    temperature = temperature_kept.0;
    humidity = h;
  }

  handle_lines-body :
      (h : Bytes)
      → set_humidity initial_weather.humidity (value_of (r.humidity ++ bytes "%")) ≡ some h
      → handle_lines initial_weather (lines r) ≡ some (parsed h)
  handle_lines-body h e =
      let w1 : Weather = record initial_weather {
        city = strncpy 63 initial_weather.city (value_of r.city_name);
      } in
      let w2 : Weather = record w1 {
        weather = strncpy 63 initial_weather.weather (value_of r.weather);
      } in
      let w3 : Weather = record w2 { temperature = temperature_kept.0 } in
      handle_lines-step _ _ _ (city_text r) _ (city_line initial_weather r.city_name) (
        handle_lines-step _ _ _ (weather_text r) _ (weather_line w1 r.weather) (
          handle_lines-step _ _ _ (temperature_text r) _
            (temperature_line w2 (r.temperature ++ bytes "°C") temperature_kept.0
              temperature_kept.1)
            (handle_lines-step _ _ _ (humidity_text r) _
              (humidity_line w3 (r.humidity ++ bytes "%") h e)
              (handle_lines-step _ _ _ (direction_text r) _
                (wind_direction_line (parsed h) r.wind_direction)
                (handle_lines-step _ _ _ (speed_text r) _ (wind_speed_line (parsed h) r.wind_speed)
                  (handle_lines-step _ _ _ (scale_text r) _
                    (wind_scale_line (parsed h) r.wind_scale) (handle_lines_end (parsed h))))))))

  parse_weather-body :
      (h : Bytes)
      → set_humidity initial_weather.humidity (value_of (r.humidity ++ bytes "%")) ≡ some h
      → parse_weather (body r) ≡ some (parsed h)
  unfolding parse_weather
  parse_weather-body h e = ap (handle_lines initial_weather) (tokens-body v) ∙ handle_lines-body h e

  -- A word in one of the long buffers.
  kept :
      (b t : Bytes)
      → drop 63 b ≡ 0 ∷ []
      → IsWord t
      → length t ≤ 63
      → text_of (strncpy 63 b (value_of t)) ≡ some t
  kept b t e h l =
      rw (value_word t h) (text_of-strncpy 63 b t (IsWord-IsText t h) e ∙ ap some (take_all 63 t l))

  pub length-shown : length shown ≤ 31
  length-shown = elim v.humidity [
    | percent s n e ↦ rw e (omega (arith, length-append r.humidity (bytes "%"), n.2))
    | missing s m e ↦ rw e (omega arith)
  ]

  pub message_text-weather_string : message_text (weather_string r) ≡ body r
  unfolding message_text weather_string
  message_text-weather_string =
      ap (λ t. c_text (drop_newline (take 4095 t))) (take_all 399 (format_report r) v.whole)
      ∙ ap (λ t. c_text (drop_newline t)) (take_all 4095 (format_report r) (omega (arith, v.whole)))
      ∙ ap (λ t. c_text (drop_newline t)) (format_report-body r)
      ∙ ap c_text (drop_newline-append (body r))
      ∙ c_text_lem (body r) (body-IsText v)

  -- The report that forecast.c prints for the service's data is, received in one piece, parsed by client
  -- C to the city, the weather and the temperature that were printed, and the humidity with its percent
  -- sign or as not available; its JSON text holds these four, whole.
  pub report-parse_weather :
      (w : Weather) × (parse_weather (message_text (weather_string r)) ≡ some w)
      × (weather_json w ≡ some (json_text r.city_name r.weather r.temperature shown))
  report-parse_weather =
      let (h, e, t) = humidity_kept in
      (
        parsed h,
        ap parse_weather message_text-weather_string ∙ parse_weather-body h e,
        weather_json-texts (parsed h) r.city_name r.weather r.temperature shown
              (kept initial_weather.city r.city_name refl v.city v.city_short)
              (kept initial_weather.weather r.weather refl v.weather v.weather_short)
              temperature_kept.2 t
            ∙ ap some (
                take_all 1023 (json_text r.city_name r.weather r.temperature shown) (
                  omega (
                    arith,
                    length-json_text r.city_name r.weather r.temperature shown,
                    v.city_short,
                    v.weather_short,
                    v.temperature.2,
                    length-shown,
                  ))),
      )
