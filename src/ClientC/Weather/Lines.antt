-- ===== src/ClientC/Weather/Lines.antt =====
-- What one line of a weather report does to the four buffers.
use smart_home_weather_monit.Base.{
  drop, false, ℕ, zero, suc, ◌≤◌, ◌<◌, ◌≡◌, refl, ap, ◌∙◌, true, false, some, [], ◌∷◌, ◌++◌, arith,
  All, length,
}
use smart_home_weather_monit.ClientC.Weather.Fields.{
  number_text_lem, number-text, strcat_percent, text_of-append,
}
use smart_home_weather_monit.Text.{strcpy, text_of, Bytes, bytes, strncpy}
use smart_home_weather_monit.Text.Buffers.{length-strncpy, IsText, IsLine}
use smart_home_weather_monit.ClientC.Weather.{
  Weather, is_empty, drop_empty, tokens, is_numeric, skip_blanks, strip_end, strip_value,
  numeric_part, set_temperature, set_humidity, handle_line, pieces,
}

-- Every byte is visible: no white space, no NUL.
abbrev pub IsWord : Bytes → Type 0
IsWord v = All (λ c. 32 < c) v

-- Digits, points and signs.
abbrev pub IsNumber : Bytes → Type 0
IsNumber v = All (λ c. is_numeric c ≡ true) v

pub IsNumber-IsWord : (v : Bytes) → IsNumber v → IsWord v
IsNumber-IsWord [] h = tt
IsNumber-IsWord (c ∷ v) h = (ground (arith, h.0), IsNumber-IsWord v h.1)

pub IsWord-IsText : (v : Bytes) → IsWord v → IsText v
IsWord-IsText [] h = tt
IsWord-IsText (c ∷ v) h = (ground (arith, h.0), IsWord-IsText v h.1)

pub IsWord-IsLine : (v : Bytes) → IsWord v → IsLine v
IsWord-IsLine [] h = tt
IsWord-IsLine (c ∷ v) h = (ground (arith, h.0), IsWord-IsLine v h.1)

skip_blanks_word : (v : Bytes) → IsWord v → skip_blanks v ≡ v
unfolding skip_blanks
skip_blanks_word [] h = refl
skip_blanks_word (c ∷ v) h = ground (arith, h.0)

strip_end_word : (v : Bytes) → IsWord v → strip_end v ≡ v
unfolding strip_end
strip_end_word [] h = refl
strip_end_word (c ∷ v) h = ground (arith, h.0, strip_end_word v h.1)

strip_value_word : (v : Bytes) → IsWord v → strip_value v ≡ v
unfolding strip_value
strip_value_word [] h = refl
strip_value_word (c ∷ v) h = ap (◌∷◌ c) (strip_end_word v h.1)

-- The value of a line is read whole.
pub value_word : (v : Bytes) → IsWord v → strip_value (skip_blanks (b' ' ∷ v)) ≡ v
unfolding skip_blanks
value_word v h = ap strip_value (skip_blanks_word v h) ∙ strip_value_word v h

-- The unit behind a number is dropped.
pub numeric_part_unit :
    (room : ℕ) (v u : Bytes)
    → IsNumber v
    → length v ≤ room
    → All (λ c. is_numeric c ≡ false) u
    → numeric_part room (v ++ u) ≡ v
unfolding numeric_part
numeric_part_unit zero [] u h l n = refl
numeric_part_unit zero (c ∷ v) u h l n = absurd (omega arith)
numeric_part_unit (suc room) [] [] h l n = refl
numeric_part_unit (suc room) [] (c ∷ u) h l n =
    ground (arith, n.0, numeric_part_unit (suc room) [] u tt l n.1)
numeric_part_unit (suc room) (c ∷ v) u h l n =
    ground (arith, h.0, numeric_part_unit room v u h.1 (omega arith) n)

-- Blanks at the front of a value do not matter.
abbrev pub value_of : Bytes → Bytes
value_of v = strip_value (skip_blanks (b' ' ∷ v))

module _ (w : Weather) (v : Bytes) where
  pub city_line :
      handle_line w (bytes " 城市: " ++ v) ≡ some (record w { city = strncpy 63 w.city (value_of v) })
  unfolding handle_line
  city_line = refl

  pub weather_line :
      handle_line w (bytes " 天气: " ++ v)
      ≡ some (record w { weather = strncpy 63 w.weather (value_of v) })
  unfolding handle_line
  weather_line = refl

  pub temperature_line :
      (t : Bytes)
      → set_temperature w.temperature (value_of v) ≡ some t
      → handle_line w (bytes " 温度: " ++ v) ≡ some (record w { temperature = t })
  unfolding handle_line
  temperature_line t e = ground arith

  pub humidity_line :
      (h : Bytes)
      → set_humidity w.humidity (value_of v) ≡ some h
      → handle_line w (bytes " 湿度: " ++ v) ≡ some (record w { humidity = h })
  unfolding handle_line
  humidity_line h e = ground arith

  pub wind_direction_line : handle_line w (bytes " 风向: " ++ v) ≡ some w
  unfolding handle_line
  wind_direction_line = refl

  pub wind_speed_line : handle_line w (bytes " 风速: " ++ v) ≡ some w
  unfolding handle_line
  wind_speed_line = refl

  pub wind_scale_line : handle_line w (bytes " 风力: " ++ v) ≡ some w
  unfolding handle_line
  wind_scale_line = refl

-- A line and what follows it.
pub pieces-line : (l rest : Bytes) → IsLine l → pieces (l ++ b'\n' ∷ rest) ≡ l ∷ pieces rest
unfolding pieces
pieces-line [] rest h = refl
pieces-line (c ∷ l) rest h = ground (arith, h.0, pieces-line l rest h.1)

pub pieces_last : (l : Bytes) → IsLine l → pieces l ≡ l ∷ []
unfolding pieces
pieces_last [] h = refl
pieces_last (c ∷ l) h = ground (arith, h.0, pieces_last l h.1)

pub tokens-line :
    (l rest : Bytes) → IsLine l → is_empty l ≡ false → tokens (l ++ b'\n' ∷ rest) ≡ l ∷ tokens rest
unfolding tokens
tokens-line l rest h e = ap drop_empty (pieces-line l rest h) ∙ ground arith

pub tokens_last : (l : Bytes) → IsLine l → is_empty l ≡ false → tokens l ≡ l ∷ []
unfolding tokens
tokens_last l h e = ap drop_empty (pieces_last l h) ∙ ground arith

-- A number that is not empty fills the buffer of the temperature.
pub set_temperature_number :
    (b v u : Bytes)
    → IsNumber v
    → 0 < length v
    → length v ≤ 30
    → All (λ c. is_numeric c ≡ false) u
    → (r : Bytes) × (set_temperature b (v ++ u) ≡ some r) × (text_of r ≡ some v)
unfolding set_temperature
set_temperature_number b v u h p l n =
    let e = number_text_lem (v ++ u) ∙ ap some (numeric_part_unit 30 v u h l n) in
    (
      strncpy 31 b v,
      ground (arith, e, p),
      number-text b v (IsWord-IsText v (IsNumber-IsWord v h)) l,
    )

-- A number with its percent sign is the text of the humidity.
pub set_humidity_number :
    (b v : Bytes)
    → length b ≡ 32
    → IsNumber v
    → 0 < length v
    → length v ≤ 30
    → (r : Bytes) × (set_humidity b (v ++ bytes "%") ≡ some r) × (text_of r ≡ some (v ++ bytes "%"))
unfolding set_humidity
set_humidity_number b v s h p l =
    let t = IsWord-IsText v (IsNumber-IsWord v h) in
    let (r, e, m, text) =
      strcat_percent (strncpy 31 b v) v (length-strncpy 31 b v (omega arith) ∙ s)
        (number-text b v t l) t l in
    (
      r,
      ground (
        arith,
        number_text_lem (v ++ bytes "%")
            ∙ ap some (numeric_part_unit 30 v (bytes "%") h l (ground arith)),
        p,
        e,
      ),
      text,
    )

pub set_humidity_missing :
    (b : Bytes)
    → length b ≡ 32
    → (r : Bytes) × (set_humidity b (bytes "N/A%") ≡ some r) × (text_of r ≡ some (bytes "N/A"))
unfolding set_humidity strcpy
set_humidity_missing b s = (
  bytes "N/A" ++ 0 ∷ drop 4 b,
  ground arith,
  text_of-append (bytes "N/A") (drop 4 b) (omega arith),
)
