-- ===== src/Gateway/Buffers.antt =====
-- The four buffers that a report of the gateway fills: writes past them, and reads behind them.
use smart_home_weather_monit.Base.{
  ℕ, ◌<◌, ◌≤◌, ◌+◌, ◌-◌, ◌==◌, ◌≡◌, refl, ap, ◌∙◌, Bool, true, false, Option, none, some, List, [],
  ◌∷◌, ◌++◌, arith, length, take, drop, set, length-take-le, Option-cases, Bool-cases, inl, inr,
}
use smart_home_weather_monit.Text.{Bytes, bytes, text_of, strncpy, strcpy, received}
use smart_home_weather_monit.Text.Buffers.{length-received, set_last}
use smart_home_weather_monit.Cjson.{Cjson}
use smart_home_weather_monit.ClientC.Weather.{Weather}
use smart_home_weather_monit.ClientC.WeatherJson.{
  copy_text, text_or_unknown, number_or, fill_weather, parse_weather_json,
}
use smart_home_weather_monit.Gateway.{Gateway, reported, act}
use smart_home_weather_monit.Gateway.Fifo.{ReadEnv, read_weather_from_fifo}
use smart_home_weather_monit.Gateway.Reports.{
  Value, Printer, ReportEnv, default_weather, weather_members, current_weather, properties_report,
  finish_report, smoke_payload, services_of,
}

-- A buffer that holds a text of at most so many bytes.
abbrev pub Holds : ℕ → Bytes → Type 0
Holds n b = (t : Bytes) × (text_of b ≡ some t) × (length t ≤ n)

Holds-append : (n : ℕ) (t rest : Bytes) → length t ≤ n → Holds n (t ++ 0 ∷ rest)
unfolding text_of
Holds-append n [] rest l = ([], refl, l)
Holds-append n (c ∷ t) rest l =
    let (x, e, k) = Holds-append (n - 1) t rest (omega arith) in
    elim (Bool-cases (c == 0)) [
      | inl z ↦ ([], ground arith, omega arith)
      | inr m ↦ (c ∷ x, ground arith, omega arith)
    ]

-- A result that is there and holds a text of at most so many bytes.
abbrev Filled : ℕ → Option Bytes → Type 0
Filled n r = (b : Bytes) × (r ≡ some b) × Holds n b

strcpy-Filled : (n : ℕ) (b t : Bytes) → length t < length b → length t ≤ n → Filled n (strcpy b t)
unfolding strcpy
strcpy-Filled n b t h l = (t ++ 0 ∷ drop (length t + 1) b, ground arith, Holds-append n t _ l)

copy_text-Filled : (n : ℕ) (b t : Bytes) → drop n b ≡ 0 ∷ [] → Filled n (copy_text n b (some t))
unfolding copy_text strncpy
copy_text-Filled n b t e = (
  received n t ++ 0 ∷ [],
  ap (λ r. some (set (received n t ++ r) n 0)) e
      ∙ ap some (set_last n (received n t) 0 0 (length-received n t)),
  Holds-append n (received n t) [] (omega (arith, length-received n t)),
)

abbrev pub members_of : Bytes → Bytes → Bytes → Bytes → List (Bytes × Value)
members_of city weather temperature humidity =
    (bytes "city", Value.text city)
    ∷ (bytes "weather", Value.text weather)
    ∷ (bytes "temperature", Value.text temperature)
    ∷ (bytes "humidity", Value.text humidity)
    ∷ (bytes "wind_direction", Value.text (bytes "North"))
    ∷ []

-- The members are texts that fit their buffers.
abbrev pub Members : List (Bytes × Value) → Type 0
Members members =
    (city : Bytes) × (weather : Bytes) × (temperature : Bytes) × (humidity : Bytes) × (members
      ≡ members_of city weather temperature humidity)
    × (length city ≤ 63)
    × (length weather ≤ 63)
    × (length temperature ≤ 31)
    × (length humidity ≤ 31)

module _ (c : Cjson) where
  text_or_unknown-Filled :
      (b : Bytes) (item : Option c.Node)
      → drop 63 b ≡ 0 ∷ []
      → 7 < length b
      → Filled 63 (text_or_unknown c b item)
  unfolding text_or_unknown
  text_or_unknown-Filled b none e h = strcpy-Filled 63 b (bytes "Unknown") h (omega arith)
  text_or_unknown-Filled b (some n) e h = elim (Bool-cases (c.is_string n)) [
    | inl s ↦
        let (t, f) = c.string_value n s in
        rw (s, text_or_unknown) (rw f (copy_text-Filled 63 b t e))
    | inr s ↦ rw (s, text_or_unknown) (strcpy-Filled 63 b (bytes "Unknown") h (omega arith))
  ]

  number_or-Filled :
      (default : Bytes) (print : c.Node → Bytes) (b : Bytes) (item : Option c.Node)
      → drop 31 b ≡ 0 ∷ []
      → length default < length b
      → length b ≡ 32
      → Filled 31 (number_or c default print b item)
  unfolding number_or
  number_or-Filled default print b none e h l = strcpy-Filled 31 b default h (omega arith)
  number_or-Filled default print b (some n) e h l = elim (Bool-cases (c.is_string n)) [
    | inl s ↦
        let (t, f) = c.string_value n s in rw (s, number_or) (rw f (copy_text-Filled 31 b t e))
    | inr s ↦ elim (Bool-cases (c.is_number n)) [
      | inl k ↦
          rw (s, number_or)
            (rw k (
              strcpy-Filled 31 b (take 30 (print n)) (omega (arith, length-take-le 30 (print n)))
                (omega (arith, length-take-le 30 (print n)))))
      | inr k ↦ rw (s, number_or) (rw k (strcpy-Filled 31 b default h (omega arith)))
    ]
  ]

  -- Four buffers that hold texts.
  record HoldsAll (w : Weather) : Type 0 where
    city : Holds 63 w.city
    weather : Holds 63 w.weather
    temperature : Holds 31 w.temperature
    humidity : Holds 31 w.humidity

  default_weather-HoldsAll : HoldsAll default_weather
  unfolding text_of
  default_weather-HoldsAll = record {
    city = (bytes "Unknown", refl, omega arith);
    weather = (bytes "Unknown", refl, omega arith);
    temperature = (bytes "25.5", refl, omega arith);
    humidity = (bytes "60", refl, omega arith);
  }

  fill_weather-HoldsAll :
      (root : c.Node) → (w : Weather) × (fill_weather c default_weather root ≡ some w) × HoldsAll w
  unfolding fill_weather
  fill_weather-HoldsAll root =
      let (city, e1, h1) =
        text_or_unknown-Filled default_weather.city (c.get_object_item root (bytes "city")) refl
          (omega arith) in
      let (weather, e2, h2) =
        text_or_unknown-Filled default_weather.weather (c.get_object_item root (bytes "weather"))
          refl (omega arith) in
      let (temperature, e3, h3) =
        number_or-Filled (bytes "25.0") c.print_tenths default_weather.temperature
          (c.get_object_item root (bytes "temperature")) refl (omega arith) (omega arith) in
      let (humidity, e4, h4) =
        number_or-Filled (bytes "60%") (λ n. c.print_whole n ++ bytes "%") default_weather.humidity
          (c.get_object_item root (bytes "humidity")) refl (omega arith) (omega arith) in
      (
        record { city = city; weather = weather; temperature = temperature; humidity = humidity },
        rw (e1, e2, e3, e4, fill_weather) refl,
        record { city = h1; weather = h2; temperature = h3; humidity = h4 },
      )

  parsed-HoldsAll :
      (text : Bytes)
      → (w : Weather) × (ok : Bool) × (parse_weather_json c (some text) (some default_weather)
          ≡ some (some w, ok))
        × HoldsAll w
  unfolding parse_weather_json
  parsed-HoldsAll text = elim (Option-cases (c.parse text)) [
    | inl e ↦ (default_weather, false, rw (e, parse_weather_json) refl, default_weather-HoldsAll)
    | inr (root, e) ↦
        let (w, f, h) = fill_weather-HoldsAll root in
        (w, true, rw (e, parse_weather_json) (rw (f, parse_weather_json) refl), h)
  ]

  current_weather-HoldsAll :
      (text : Option Bytes) → (w : Weather) × (current_weather c text ≡ some w) × HoldsAll w
  unfolding current_weather
  current_weather-HoldsAll none = (default_weather, refl, default_weather-HoldsAll)
  current_weather-HoldsAll (some text) =
      let (w, ok, e, h) = parsed-HoldsAll text in (w, rw (e, current_weather) refl, h)

  weather_members-HoldsAll :
      (w : Weather)
      → HoldsAll w
      → (members : List (Bytes × Value)) × (weather_members w ≡ some members) × Members members
  unfolding weather_members
  weather_members-HoldsAll w h =
      let (a, e1, l1) = h.city in
      let (b, e2, l2) = h.weather in
      let (t, e3, l3) = h.temperature in
      let (u, e4, l4) = h.humidity in
      (
        members_of a b t u,
        rw (e1, e2, e3, e4, weather_members) refl,
        (a, b, t, u, refl, l1, l2, l3, l4),
      )

  -- A report that is defined: its text is kept, its services are handed to the SDK, and nothing else.
  abbrev pub Finished : Printer → Option Bytes → Gateway → Option Gateway → Type 0
  Finished print smoke g r =
      (text : Bytes) × (members : List (Bytes × Value)) × Members members
      × (r
          ≡ some (
              act (record g { last_weather = text })
                (reported (services_of print smoke g members) ∷ [])))

  abbrev pub Reported : Printer → ReportEnv → Gateway → Option Gateway → Type 0
  Reported print env g r = Finished print (smoke_payload print env g) g r

  Finished_lem :
      (print : Printer) (fifo : ReadEnv) (smoke : Option Bytes) (g : Gateway) (w : Weather)
      (members : List (Bytes × Value))
      → current_weather c (read_weather_from_fifo fifo g).1 ≡ some w
      → weather_members w ≡ some members
      → Members members
      → Finished print smoke g (finish_report c print fifo smoke g)
  unfolding finish_report read_weather_from_fifo
  Finished_lem print fifo smoke g w members e f v =
      rw (e, finish_report) (rw (f, finish_report) (_, members, v, refl))

  pub finish_report_total :
      (print : Printer) (fifo : ReadEnv) (smoke : Option Bytes) (g : Gateway)
      → Finished print smoke g (finish_report c print fifo smoke g)
  finish_report_total print fifo smoke g =
      let (w, e, h) = current_weather-HoldsAll (read_weather_from_fifo fifo g).1 in
      let (members, f, v) = weather_members-HoldsAll w h in
      Finished_lem print fifo smoke g w members e f v

  pub properties_report_total :
      (print : Printer) (env : ReportEnv) (g : Gateway)
      → Reported print env g (properties_report c print env g)
  unfolding properties_report
  properties_report_total print env g =
      finish_report_total print env.fifo (smoke_payload print env g) g
