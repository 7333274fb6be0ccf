-- ===== src/ClientC/Weather.antt =====
-- The weather part of `parse_and_handle_message`: the lines of a report, the four buffers that they fill,
-- and the JSON text that is made of them.
pub mod Fields
pub mod Bounds
pub mod Lines
use smart_home_weather_monit.Base.{
  ℕ, zero, suc, ◌+◌, Bool, true, false, not, ◌&&◌, ◌||◌, Option, none, some, List, [], ◌∷◌, ◌++◌,
  ltb, leb, ◌==◌, if◌then◌else◌, length, replicate, drop,
}
use smart_home_weather_monit.Text.{Bytes, bytes, contains, strncpy, strcpy, text_of, snprintf}

-- `char city[64], weather[64], temperature[32], humidity[32]`
pub record Weather : Type 0 where
  pub city : Bytes
  pub weather : Bytes
  pub temperature : Bytes
  pub humidity : Bytes

abbrev pub initial_weather : Weather
initial_weather = record {
  city = bytes "Unknown" ++ replicate 57 0;
  weather = bytes "Unknown" ++ replicate 57 0;
  temperature = bytes "25.0" ++ replicate 28 0;
  humidity = bytes "60" ++ replicate 30 0;
}

abbrev pub is_blank : ℕ → Bool
is_blank c = c == b' ' || c == b'\t'

unfoldable pub skip_blanks : Bytes → Bytes
skip_blanks [] = []
skip_blanks (c ∷ cs) = if is_blank c then skip_blanks cs else c ∷ cs

abbrev pub is_trailing : ℕ → Bool
is_trailing c = c == b' ' || c == b'\t' || c == b'\n' || c == b'\r'

abbrev pub is_empty : Bytes → Bool
is_empty [] = true
is_empty (c ∷ cs) = false

-- The text without the white space at its end.
unfoldable pub strip_end : Bytes → Bytes
strip_end [] = []
strip_end (c ∷ cs) =
    let rest = strip_end cs in if is_empty rest && is_trailing c then [] else c ∷ rest

-- The loop `while (end > value && …)` never removes the first byte of the value.
unfoldable pub strip_value : Bytes → Bytes
unfolding strip_end
strip_value [] = []
strip_value (c ∷ cs) = c ∷ strip_end cs

-- The key and the value of a line, at its first colon.
unfoldable pub split_colon : Bytes → Option (Bytes × Bytes)
split_colon [] = none
split_colon (c ∷ cs) =
    let rest = split_colon cs in
    if c == b':'
    then some ([], cs)
    else elim rest [ none ↦ none | some (key, value) ↦ some (c ∷ key, value) ]

abbrev pub is_numeric : ℕ → Bool
is_numeric c = leb b'0' c && leb c b'9' || c == b'.' || c == b'-'

-- The first digits, points and signs of a value, at most as many as there is room for.
unfoldable pub numeric_part : ℕ → Bytes → Bytes
numeric_part zero value = []
numeric_part (suc room) [] = []
numeric_part (suc room) (c ∷ cs) = elim (is_numeric c) [
  | true ↦ c ∷ numeric_part room cs
  | false ↦ numeric_part (suc room) cs
]

-- `temp_num` and `hum_num`, of 32 bytes: the number and the NUL behind it; `none` is a write past the end.
unfoldable pub number_text : Bytes → Option Bytes
unfolding numeric_part
number_text value =
    let number = numeric_part 30 value in if ltb (length number) 32 then some number else none

-- `strcat(buffer, text)`; `none` is a write past the buffer's end.
unfoldable pub strcat : Bytes → Bytes → Option Bytes
unfolding text_of
strcat buffer text = elim (text_of buffer) [
  | none ↦ none
  | some old ↦
      if ltb (length old + length text) (length buffer)
      then some (old ++ (text ++ 0 ∷ drop (length old + length text + 1) buffer))
      else none
]

-- The humidity of a value; `none` is a write past the buffer's end.
unfoldable pub set_humidity : Bytes → Bytes → Option Bytes
unfolding number_text strncpy strcat strcpy contains
set_humidity buffer value = elim (number_text value) [
  | none ↦ none
  | some number ↦
      if ltb 0 (length number)
      then strcat (strncpy 31 buffer number) (bytes "%")
      else if contains value (bytes "N/A")
      then strcpy buffer (bytes "N/A")
      else some buffer
]

unfoldable pub set_temperature : Bytes → Bytes → Option Bytes
unfolding number_text strncpy
set_temperature buffer value = elim (number_text value) [
  | none ↦ none
  | some number ↦ some (if ltb 0 (length number) then strncpy 31 buffer number else buffer)
]

-- The chain of tests on the key.
unfoldable pub set_field : Weather → Bytes → Bytes → Option Weather
unfolding contains set_humidity set_temperature strncpy
set_field w key value =
    if contains key (bytes "城市")
    then some (record w { city = strncpy 63 w.city value })
    else if contains key (bytes "天气")
    then some (record w { weather = strncpy 63 w.weather value })
    else if contains key (bytes "温度")
    then elim (set_temperature w.temperature value) [
      | none ↦ none
      | some t ↦ some (record w { temperature = t })
    ]
    else if contains key (bytes "湿度")
    then elim (set_humidity w.humidity value) [
      | none ↦ none
      | some h ↦ some (record w { humidity = h })
    ]
    else some w

-- The body of the loop over the lines.
unfoldable pub handle_line : Weather → Bytes → Option Weather
unfolding split_colon skip_blanks strip_value set_field
handle_line w line = elim (split_colon (skip_blanks line)) [
  | none ↦ some w
  | some (key, value) ↦ set_field w key (strip_value (skip_blanks value))
]

-- The pieces between newlines.
unfoldable pub pieces : Bytes → List Bytes
pieces [] = [] ∷ []
pieces (c ∷ cs) =
    let rest = pieces cs in
    if c == b'\n' then [] ∷ rest else elim rest [ [] ↦ (c ∷ []) ∷ [] | p ∷ ps ↦ (c ∷ p) ∷ ps ]

abbrev pub drop_empty : List Bytes → List Bytes
drop_empty [] = []
drop_empty (p ∷ ps) = if is_empty p then drop_empty ps else p ∷ drop_empty ps

-- The tokens of `strtok(message_copy, "\n")`: no token is empty.
unfoldable pub tokens : Bytes → List Bytes
unfolding pieces
tokens message = drop_empty (pieces message)

unfoldable pub handle_lines : Weather → List Bytes → Option Weather
unfolding handle_line
handle_lines w [] = some w
handle_lines w (line ∷ lines) = elim (handle_line w line) [
  | none ↦ none
  | some next ↦ handle_lines next lines
]

unfoldable pub parse_weather : Bytes → Option Weather
unfolding handle_lines tokens
parse_weather message = handle_lines initial_weather (tokens message)

abbrev pub json_text : Bytes → Bytes → Bytes → Bytes → Bytes
json_text city weather temperature humidity =
    bytes "{\"city\":\""
    ++ (city
        ++ (bytes "\",\"weather\":\""
            ++ (weather
                ++ (bytes "\",\"temperature\":\""
                    ++ (temperature
                        ++ (bytes "\",\"humidity\":\"" ++ (humidity ++ bytes "\"}")))))))

-- `json_buffer`; `none` where a buffer holds no NUL.
unfoldable pub weather_json : Weather → Option Bytes
unfolding text_of
weather_json w = elim (text_of w.city) [
  | none ↦ none
  | some city ↦ elim (text_of w.weather) [
    | none ↦ none
    | some weather ↦ elim (text_of w.temperature) [
      | none ↦ none
      | some temperature ↦ elim (text_of w.humidity) [
        | none ↦ none
        | some humidity ↦ some (snprintf 1024 (json_text city weather temperature humidity))
      ]
    ]
  ]
]
