-- ===== src/System/Report.antt =====
-- The report that forecast.c prints: seven lines, each a label and a value.
use smart_home_weather_monit.Base.{
  ◌≤◌, ◌<◌, ◌≡◌, ◌≢◌, refl, ap, ◌∙◌, List, [], ◌∷◌, ◌++◌, arith, All-append, append_assoc, length,
}
use smart_home_weather_monit.Text.{Bytes, bytes}
use smart_home_weather_monit.Text.Buffers.{IsText, IsLine}
use smart_home_weather_monit.Forecast.Extract.{Report, format_report, not_available}
use smart_home_weather_monit.ClientC.Weather.{tokens}
use smart_home_weather_monit.ClientC.Weather.Lines.{
  IsWord, IsNumber, IsNumber-IsWord, IsWord-IsText, IsWord-IsLine, tokens-line, tokens_last,
}

abbrev pub IsNumeral : Bytes → Type 0
IsNumeral v = IsNumber v × (0 < length v) × (length v ≤ 30)

-- A text of one line without a NUL.
abbrev pub IsOneLine : Bytes → Type 0
IsOneLine v = IsText v × IsLine v

-- The humidity in a report, and as client C shows it: with a percent sign, or not available.
pub data ShownAs (h : Bytes) : Bytes → Type 0 where
  percent : (shown : Bytes) → IsNumeral h → shown ≡ h ++ bytes "%" → ShownAs h shown
  missing : (shown : Bytes) → h ≡ not_available → shown ≡ bytes "N/A" → ShownAs h shown

-- A report of the kind that the service sends: words for the city and the weather, numerals for the
-- temperature and the humidity, if it is there, and short enough for the 400 bytes of the message.
pub record IsPlain (r : Report) (shown : Bytes) : Type 0 where
  pub city : IsWord r.city_name
  pub city_short : length r.city_name ≤ 63
  pub weather : IsWord r.weather
  pub weather_short : length r.weather ≤ 63
  pub temperature : IsNumeral r.temperature
  pub humidity : ShownAs r.humidity shown
  pub wind_direction : IsOneLine r.wind_direction
  pub wind_speed : IsOneLine r.wind_speed
  pub wind_scale : IsOneLine r.wind_scale
  pub whole : length (format_report r) ≤ 399

-- The lines of the report, and the text from each of them on, without the last newline.
module _ (r : Report) where
  abbrev pub city_text : Bytes
  city_text = bytes " 城市: " ++ r.city_name

  abbrev pub weather_text : Bytes
  weather_text = bytes " 天气: " ++ r.weather

  abbrev pub temperature_text : Bytes
  temperature_text = bytes " 温度: " ++ (r.temperature ++ bytes "°C")

  abbrev pub humidity_text : Bytes
  humidity_text = bytes " 湿度: " ++ (r.humidity ++ bytes "%")

  abbrev pub direction_text : Bytes
  direction_text = bytes " 风向: " ++ r.wind_direction

  abbrev pub speed_text : Bytes
  speed_text = bytes " 风速: " ++ r.wind_speed

  abbrev pub scale_text : Bytes
  scale_text = bytes " 风力: " ++ r.wind_scale

  abbrev pub lines : List Bytes
  lines =
      city_text ∷ weather_text ∷ temperature_text ∷ humidity_text ∷ direction_text ∷ speed_text
      ∷ scale_text ∷ []

  abbrev from_speed : Bytes
  from_speed = speed_text ++ b'\n' ∷ scale_text

  abbrev from_humidity : Bytes
  from_humidity = humidity_text ++ b'\n' ∷ (direction_text ++ b'\n' ∷ from_speed)

  abbrev from_weather : Bytes
  from_weather = weather_text ++ b'\n' ∷ (temperature_text ++ b'\n' ∷ from_humidity)

  abbrev pub body : Bytes
  body = city_text ++ b'\n' ∷ from_weather

  pub format_report-body : format_report r ≡ body ++ b'\n' ∷ []
  unfolding format_report
  format_report-body = simp append_assoc

word-IsOneLine : (t : Bytes) → IsWord t → IsOneLine t
word-IsOneLine t h = (IsWord-IsText t h, IsWord-IsLine t h)

append-IsOneLine : (s t : Bytes) → IsOneLine s → IsOneLine t → IsOneLine (s ++ t)
append-IsOneLine s t h k =
    (All-append (λ c. c ≢ 0) s t h.0 k.0, All-append (λ c. c ≢ b'\n') s t h.1 k.1)

join-IsText : (s t : Bytes) → IsOneLine s → IsText t → IsText (s ++ b'\n' ∷ t)
join-IsText s t h k = All-append (λ c. c ≢ 0) s (b'\n' ∷ t) h.0 (omega arith, k)

module _ {r : Report} {shown : Bytes} (v : IsPlain r shown) where
  pub humidity-IsWord : IsWord r.humidity
  humidity-IsWord = elim v.humidity [
    | percent s n e ↦ IsNumber-IsWord r.humidity n.0
    | missing s m e ↦ rw m (omega arith)
  ]

  pub temperature-IsWord : IsWord (r.temperature ++ bytes "°C")
  temperature-IsWord =
      All-append (λ c. 32 < c) r.temperature (bytes "°C")
        (IsNumber-IsWord r.temperature v.temperature.0) (omega arith)

  pub percent-IsWord : IsWord (r.humidity ++ bytes "%")
  percent-IsWord = All-append (λ c. 32 < c) r.humidity (bytes "%") humidity-IsWord (omega arith)

  city_text-IsOneLine : IsOneLine (city_text r)
  city_text-IsOneLine =
      append-IsOneLine (bytes " 城市: ") r.city_name (omega arith) (word-IsOneLine r.city_name v.city)

  weather_text-IsOneLine : IsOneLine (weather_text r)
  weather_text-IsOneLine =
      append-IsOneLine (bytes " 天气: ") r.weather (omega arith) (word-IsOneLine r.weather v.weather)

  temperature_text-IsOneLine : IsOneLine (temperature_text r)
  temperature_text-IsOneLine =
      append-IsOneLine (bytes " 温度: ") (r.temperature ++ bytes "°C") (omega arith)
        (word-IsOneLine (r.temperature ++ bytes "°C") temperature-IsWord)

  humidity_text-IsOneLine : IsOneLine (humidity_text r)
  humidity_text-IsOneLine =
      append-IsOneLine (bytes " 湿度: ") (r.humidity ++ bytes "%") (omega arith)
        (word-IsOneLine (r.humidity ++ bytes "%") percent-IsWord)

  direction_text-IsOneLine : IsOneLine (direction_text r)
  direction_text-IsOneLine =
      append-IsOneLine (bytes " 风向: ") r.wind_direction (omega arith) v.wind_direction

  speed_text-IsOneLine : IsOneLine (speed_text r)
  speed_text-IsOneLine = append-IsOneLine (bytes " 风速: ") r.wind_speed (omega arith) v.wind_speed

  scale_text-IsOneLine : IsOneLine (scale_text r)
  scale_text-IsOneLine = append-IsOneLine (bytes " 风力: ") r.wind_scale (omega arith) v.wind_scale

  pub body-IsText : IsText (body r)
  body-IsText = join-IsText (city_text r) (from_weather r) city_text-IsOneLine (
      join-IsText (weather_text r) (temperature_text r ++ b'\n' ∷ from_humidity r)
        weather_text-IsOneLine
        (join-IsText (temperature_text r) (from_humidity r) temperature_text-IsOneLine (
          join-IsText (humidity_text r) (direction_text r ++ b'\n' ∷ from_speed r)
            humidity_text-IsOneLine
            (join-IsText (direction_text r) (from_speed r) direction_text-IsOneLine (
              join-IsText (speed_text r) (scale_text r) speed_text-IsOneLine
                scale_text-IsOneLine.0)))))

  pub tokens-body : tokens (body r) ≡ lines r
  tokens-body =
      tokens-line (city_text r) (from_weather r) city_text-IsOneLine.1 refl
      ∙ ap (◌∷◌ (city_text r)) (
          tokens-line (weather_text r) (temperature_text r ++ b'\n' ∷ from_humidity r)
            weather_text-IsOneLine.1 refl
          ∙ ap (◌∷◌ (weather_text r)) (
              tokens-line (temperature_text r) (from_humidity r) temperature_text-IsOneLine.1 refl
              ∙ ap (◌∷◌ (temperature_text r)) (
                  tokens-line (humidity_text r) (direction_text r ++ b'\n' ∷ from_speed r)
                    humidity_text-IsOneLine.1 refl
                  ∙ ap (◌∷◌ (humidity_text r)) (
                      tokens-line (direction_text r) (from_speed r) direction_text-IsOneLine.1 refl
                      ∙ ap (◌∷◌ (direction_text r)) (
                          tokens-line (speed_text r) (scale_text r) speed_text-IsOneLine.1 refl
                          ∙ ap (◌∷◌ (speed_text r))
                              (tokens_last (scale_text r) scale_text-IsOneLine.1 refl))))))
