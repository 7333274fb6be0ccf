-- ===== src/ClientC/Weather/Fields.antt =====
-- The bounds of the four buffers that the weather parser fills.
use smart_home_weather_monit.Base.{
  ℕ, zero, suc, ◌+◌, ◌≤◌, ◌<◌, ◌≡◌, ◌≢◌, refl, ap, sym, ◌∙◌, Option, some, [], ◌∷◌, ◌++◌, arith,
  inl, inr, Bool-cases, ltb, ◌==◌, All-append, append_assoc, length, drop, length-append,
  length-drop,
}
use smart_home_weather_monit.Text.{Bytes, bytes, contains, received, text_of, strncpy, strcpy}
use smart_home_weather_monit.Text.Buffers.{IsText, length-strncpy}
use smart_home_weather_monit.ClientC.Weather.{
  Weather, initial_weather, is_numeric, numeric_part, number_text, strcat, set_humidity,
  set_temperature,
}

-- The text of a buffer has at most n bytes.
abbrev pub TextWithin : ℕ → Bytes → Type 0
TextWithin n b = (t : Bytes) × (text_of b ≡ some t) × (length t ≤ n)

-- A NUL in the last place ends the text.
pub last_nul : (n : ℕ) (b : Bytes) → drop n b ≡ 0 ∷ [] → TextWithin n b
unfolding text_of
last_nul zero [] e = absurd (cc)
last_nul zero (c ∷ cs) e = ([], ground arith, omega arith)
last_nul (suc n) [] e = absurd (cc)
last_nul (suc n) (c ∷ cs) e =
    let (t, h, l) = last_nul n cs e in
    elim (Bool-cases (c == 0)) [
      | inl z ↦ ([], ground arith, omega arith)
      | inr nz ↦ (c ∷ t, ground arith, omega arith)
    ]

text_of-received_short :
    (n : ℕ) (t rest : Bytes) → IsText t → length t < n → text_of (received n t ++ rest) ≡ some t
unfolding received text_of
text_of-received_short zero t rest h l = absurd (omega arith)
text_of-received_short (suc n) [] rest h l = refl
text_of-received_short (suc n) (c ∷ t) rest h l =
    ground (arith, h.0, text_of-received_short n t rest h.1)

pub text_of-append : (t rest : Bytes) → IsText t → text_of (t ++ 0 ∷ rest) ≡ some t
unfolding text_of
text_of-append [] rest h = refl
text_of-append (c ∷ t) rest h = ground (arith, h.0, text_of-append t rest h.1)

numeric_part-IsText : (room : ℕ) (v : Bytes) → IsText (numeric_part room v)
unfolding numeric_part
numeric_part-IsText zero v = tt
numeric_part-IsText (suc room) [] = tt
numeric_part-IsText (suc room) (c ∷ cs) = elim (Bool-cases (is_numeric c)) [
  | inl y ↦ rw (y, numeric_part) (ground arith, numeric_part-IsText room cs)
  | inr n ↦ rw (n, numeric_part) (numeric_part-IsText (suc room) cs)
]

length-numeric_part : (room : ℕ) (v : Bytes) → length (numeric_part room v) ≤ room
unfolding numeric_part
length-numeric_part zero v = omega arith
length-numeric_part (suc room) [] = omega arith
length-numeric_part (suc room) (c ∷ cs) =
    ground (arith, length-numeric_part room cs, length-numeric_part (suc room) cs)

-- The NUL in the last place of the two long buffers, and the sizes and texts of the short ones.
pub record IsBounded (w : Weather) : Type 0 where
  pub city_nul : drop 63 w.city ≡ 0 ∷ []
  pub weather_nul : drop 63 w.weather ≡ 0 ∷ []
  pub temperature_size : length w.temperature ≡ 32
  pub temperature_text : TextWithin 31 w.temperature
  pub humidity_size : length w.humidity ≡ 32
  pub humidity_text : TextWithin 31 w.humidity

pub initial-IsBounded : IsBounded initial_weather
unfolding text_of
initial-IsBounded = record {
  city_nul = refl;
  weather_nul = refl;
  temperature_size = refl;
  temperature_text = (bytes "25.0", refl, omega arith);
  humidity_size = refl;
  humidity_text = (bytes "60", refl, omega arith);
}

-- A number copied into a buffer of 32 bytes is its text.
pub number-text :
    (b number : Bytes)
    → IsText number
    → length number ≤ 30
    → text_of (strncpy 31 b number) ≡ some number
unfolding strncpy
number-text b number t l = text_of-received_short 31 number (drop 31 b) t (omega arith)

-- A number and its NUL fit their buffer.
pub number_text_lem : (value : Bytes) → number_text value ≡ some (numeric_part 30 value)
unfolding number_text
number_text_lem value = ground (arith, length-numeric_part 30 value)

-- A result that is there, in a buffer of 32 bytes.
abbrev Fits : Option Bytes → Type 0
Fits r = (b : Bytes) × (r ≡ some b) × (length b ≡ 32) × TextWithin 31 b

pub set_temperature-Fits :
    (b value : Bytes) → length b ≡ 32 → TextWithin 31 b → Fits (set_temperature b value)
unfolding set_temperature
set_temperature-Fits b value l t =
    rw (number_text_lem value, set_temperature)
      (elim (Bool-cases (ltb 0 (length (numeric_part 30 value)))) [
        | inl y ↦ rw y (
          strncpy 31 b (numeric_part 30 value),
          refl,
          length-strncpy 31 b (numeric_part 30 value) (omega arith) ∙ l,
          (
            numeric_part 30 value,
            number-text b (numeric_part 30 value) (numeric_part-IsText 30 value)
                (length-numeric_part 30 value),
            omega (arith, length-numeric_part 30 value),
          ),
        )
        | inr n ↦ rw n (b, refl, l, t)
      ])

-- A percent sign behind a text for which there is room.
pub strcat_percent :
    (b old : Bytes)
    → length b ≡ 32
    → text_of b ≡ some old
    → IsText old
    → length old ≤ 30
    → (r : Bytes) × (strcat b (bytes "%") ≡ some r)
      × (length r ≡ 32)
      × (text_of r ≡ some (old ++ bytes "%"))
unfolding strcat
strcat_percent b old l e t short =
    let rest = drop (length old + 1 + 1) b in
    (
      old ++ (bytes "%" ++ 0 ∷ rest),
      ground arith,
      omega (arith, length-append old (bytes "%" ++ 0 ∷ rest), length-drop (length old + 1 + 1) b),
      ap text_of (sym (append_assoc old (bytes "%") (0 ∷ rest)))
          ∙ text_of-append (old ++ bytes "%") rest
              (All-append (λ c. c ≢ 0) old (bytes "%") t (omega arith)),
    )

strcat-Fits :
    (b old : Bytes)
    → length b ≡ 32
    → text_of b ≡ some old
    → IsText old
    → length old ≤ 30
    → Fits (strcat b (bytes "%"))
strcat-Fits b old l e t short =
    let (r, h, m, text) = strcat_percent b old l e t short in
    (r, h, m, (old ++ bytes "%", text, omega (arith, length-append old (bytes "%"))))

not_available-Fits : (b : Bytes) → length b ≡ 32 → Fits (strcpy b (bytes "N/A"))
unfolding strcpy
not_available-Fits b l = (
  bytes "N/A" ++ 0 ∷ drop 4 b,
  ground arith,
  omega (arith, length-drop 4 b),
  (bytes "N/A", text_of-append (bytes "N/A") (drop 4 b) (omega arith), omega arith),
)

pub set_humidity-Fits :
    (b value : Bytes) → length b ≡ 32 → TextWithin 31 b → Fits (set_humidity b value)
unfolding set_humidity
set_humidity-Fits b value l t =
    rw (number_text_lem value, set_humidity)
      (elim (Bool-cases (ltb 0 (length (numeric_part 30 value)))) [
        | inl y ↦ rw y (
            strcat-Fits (strncpy 31 b (numeric_part 30 value)) (numeric_part 30 value)
              (length-strncpy 31 b (numeric_part 30 value) (omega arith) ∙ l)
              (number-text b (numeric_part 30 value) (numeric_part-IsText 30 value)
                (length-numeric_part 30 value))
              (numeric_part-IsText 30 value) (length-numeric_part 30 value))
        | inr n ↦ rw n (elim (Bool-cases (contains value (bytes "N/A"))) [
          | inl na ↦ rw na (not_available-Fits b l)
          | inr other ↦ rw other (b, refl, l, t)
        ])
      ])
