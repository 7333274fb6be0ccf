-- ===== src/ClientC/Weather/Bounds.antt =====
-- The bounds of the weather parser: writes past its buffers, and the length of the JSON text.
use smart_home_weather_monit.Base.{
  take, ◌+◌, ◌≤◌, ◌≡◌, refl, ap, ◌∙◌, Option, some, [], ◌∷◌, ◌++◌, arith, inl, inr, Bool-cases,
  length, length-append, Option-cases, take_all, List,
}
use smart_home_weather_monit.Text.{Bytes, bytes, contains, text_of, strncpy}
use smart_home_weather_monit.Text.Buffers.{drop-strncpy}
use smart_home_weather_monit.ClientC.Weather.{
  Weather, initial_weather, set_field, handle_line, handle_lines, tokens, parse_weather, json_text,
  weather_json, split_colon, skip_blanks, strip_value,
}
use smart_home_weather_monit.ClientC.Weather.Fields.{
  last_nul, IsBounded, initial-IsBounded, set_temperature-Fits, set_humidity-Fits,
}

-- The parser goes on, with bounded buffers.
abbrev Parsed : Option Weather → Type 0
Parsed r = (w : Weather) × (r ≡ some w) × IsBounded w

set_field-Parsed : (w : Weather) (key value : Bytes) → IsBounded w → Parsed (set_field w key value)
unfolding set_field
set_field-Parsed w key value v =
    let (h, e, hl, ht) = set_humidity-Fits w.humidity value v.humidity_size v.humidity_text in
    let (temp, te, tl, tt') =
      set_temperature-Fits w.temperature value v.temperature_size v.temperature_text in
    elim (Bool-cases (contains key (bytes "城市"))) [
      | inl a ↦ rw a (
        record w { city = strncpy 63 w.city value },
        refl,
        record {
          city_nul = drop-strncpy 63 w.city value ∙ v.city_nul;
          weather_nul = v.weather_nul;
          temperature_size = v.temperature_size;
          temperature_text = v.temperature_text;
          humidity_size = v.humidity_size;
          humidity_text = v.humidity_text;
        },
      )
      | inr na ↦ rw na (elim (Bool-cases (contains key (bytes "天气"))) [
        | inl b ↦ rw b (
          record w { weather = strncpy 63 w.weather value },
          refl,
          record {
            city_nul = v.city_nul;
            weather_nul = drop-strncpy 63 w.weather value ∙ v.weather_nul;
            temperature_size = v.temperature_size;
            temperature_text = v.temperature_text;
            humidity_size = v.humidity_size;
            humidity_text = v.humidity_text;
          },
        )
        | inr nb ↦ rw nb (elim (Bool-cases (contains key (bytes "温度"))) [
          | inl t ↦
              rw (t, te)
                (
                  record w { temperature = temp },
                  refl,
                  record {
                    city_nul = v.city_nul;
                    weather_nul = v.weather_nul;
                    temperature_size = tl;
                    temperature_text = tt';
                    humidity_size = v.humidity_size;
                    humidity_text = v.humidity_text;
                  },
                )
          | inr nt ↦ rw nt (elim (Bool-cases (contains key (bytes "湿度"))) [
            | inl y ↦
                rw (y, e)
                  (
                    record w { humidity = h },
                    refl,
                    record {
                      city_nul = v.city_nul;
                      weather_nul = v.weather_nul;
                      temperature_size = v.temperature_size;
                      temperature_text = v.temperature_text;
                      humidity_size = hl;
                      humidity_text = ht;
                    },
                  )
            | inr ny ↦ rw ny (w, refl, v)
          ])
        ])
      ])
    ]

handle_line-Parsed : (w : Weather) (line : Bytes) → IsBounded w → Parsed (handle_line w line)
unfolding handle_line
handle_line-Parsed w line v = elim (Option-cases (split_colon (skip_blanks line))) [
  | inl e ↦ rw (e, handle_line) (w, refl, v)
  | inr (kv, e) ↦ rw (e, handle_line) (set_field-Parsed w kv.0 (strip_value (skip_blanks kv.1)) v)
]

handle_lines-Parsed : (w : Weather) (ls : List Bytes) → IsBounded w → Parsed (handle_lines w ls)
unfolding handle_lines
handle_lines-Parsed w [] v = (w, refl, v)
handle_lines-Parsed w (l ∷ ls) v =
    let (next, e, v') = handle_line-Parsed w l v in
    let (last, f, v'') = handle_lines-Parsed next ls v' in (last, ground arith, v'')

length_nine :
    (p a q b r c s d t : Bytes)
    → length (p ++ (a ++ (q ++ (b ++ (r ++ (c ++ (s ++ (d ++ t))))))))
      ≡ length p
        + length a
        + length q
        + length b
        + length r
        + length c
        + length s
        + length d
        + length t
length_nine p a q b r c s d t = omega (
  arith,
  length-append p (a ++ (q ++ (b ++ (r ++ (c ++ (s ++ (d ++ t))))))),
  length-append a (q ++ (b ++ (r ++ (c ++ (s ++ (d ++ t)))))),
  length-append q (b ++ (r ++ (c ++ (s ++ (d ++ t))))),
  length-append b (r ++ (c ++ (s ++ (d ++ t)))),
  length-append r (c ++ (s ++ (d ++ t))),
  length-append c (s ++ (d ++ t)),
  length-append s (d ++ t),
  length-append d t,
)

pub length-json_text :
    (a b c d : Bytes) → length (json_text a b c d) ≡ length a + length b + length c + length d + 55
length-json_text a b c d = omega (
  arith,
  length_nine (bytes "{\"city\":\"") a (bytes "\",\"weather\":\"") b (bytes "\",\"temperature\":\"")
      c (bytes "\",\"humidity\":\"") d (bytes "\"}"),
)

-- The JSON text of some texts that fit the buffers.
abbrev pub IsWhole : Bytes → Type 0
IsWhole json =
    (a : Bytes) × (b : Bytes) × (c : Bytes) × (d : Bytes) × (json ≡ json_text a b c d)
    × (length a ≤ 63)
    × (length b ≤ 63)
    × (length c ≤ 31)
    × (length d ≤ 31)

pub weather_json-texts :
    (w : Weather) (a b c d : Bytes)
    → text_of w.city ≡ some a
    → text_of w.weather ≡ some b
    → text_of w.temperature ≡ some c
    → text_of w.humidity ≡ some d
    → weather_json w ≡ some (take 1023 (json_text a b c d))
unfolding weather_json
weather_json-texts w a b c d ea eb ec ed = rw (ea, eb, ec, ed, weather_json) refl

weather_json-IsWhole :
    (w : Weather) → IsBounded w → (json : Bytes) × (weather_json w ≡ some json) × IsWhole json
weather_json-IsWhole w v =
    let (a, ea, la) = last_nul 63 w.city v.city_nul in
    let (b, eb, lb) = last_nul 63 w.weather v.weather_nul in
    let (c, ec, lc) = v.temperature_text in
    let (d, ed, ld) = v.humidity_text in
    (
      json_text a b c d,
      weather_json-texts w a b c d ea eb ec ed
          ∙ ap some (
              take_all 1023 (json_text a b c d)
                (omega (arith, length-json_text a b c d, la, lb, lc, ld))),
      (a, b, c, d, refl, la, lb, lc, ld),
    )

pub parse_weather-IsWhole :
    (message : Bytes)
    → (w : Weather) × (json : Bytes) × (parse_weather message ≡ some w)
      × (weather_json w ≡ some json)
      × IsWhole json
unfolding parse_weather
parse_weather-IsWhole message =
    let (w, e, v) = handle_lines-Parsed initial_weather (tokens message) initial-IsBounded in
    let (json, f, whole) = weather_json-IsWhole w v in (w, json, e, f, whole)
