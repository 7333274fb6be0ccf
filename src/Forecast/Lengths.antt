-- ===== src/Forecast/Lengths.antt =====
-- How long a report can be.
use smart_home_weather_monit.Base.{
  ℕ, zero, suc, Option, none, some, ◌≡◌, ◌⊎◌, refl, ◌≤◌, Bool, true, false, Option-cases,
  Bool-cases, inl, inr, length, length-take-le, if◌then◌else◌,
}
use smart_home_weather_monit.Text.{Bytes, c_text}
use smart_home_weather_monit.Cjson.{Cjson}
use smart_home_weather_monit.Forecast.Response.{
  Reply, no_memory, no_response, response, json_start, read_response,
}
use smart_home_weather_monit.Forecast.Extract.{Report, extract, weather_string, format_report}
use smart_home_weather_monit.Forecast.Query.{
  Result, undefined, null, weather, Network, report_root, read_report, finish_reading,
  get_weather_data,
}

-- A result that is a report of at most 399 bytes, if it is one.
abbrev pub IsShort : Result → Type 0
IsShort (weather t) = length t ≤ 399
IsShort null = Unit
IsShort undefined = Unit

weather_string-short : (r : Report) → length (weather_string r) ≤ 399
unfolding weather_string
weather_string-short r = length-take-le 399 (format_report r)

module _ (c : Cjson) (allocated : Bool) where
  report-IsShort : (r : Report) → IsShort (if allocated then weather (weather_string r) else null)
  report-IsShort r = elim (Bool-cases allocated) [
    | inl y ↦ rw y (weather_string-short r)
    | inr n ↦ rw n tt
  ]

  report_root-IsShort : (root : c.Node) → IsShort (report_root c allocated root).result
  unfolding report_root
  report_root-IsShort root = elim (Option-cases (extract c root)) [
    | inl e ↦ rw (e, report_root) tt
    | inr (r, e) ↦ rw (e, report_root) (report-IsShort r)
  ]

  read_report-IsShort : (reply : Bytes) → IsShort (read_report c allocated reply).result
  unfolding read_report
  read_report-IsShort reply = elim (Option-cases (json_start (c_text reply))) [
    | inl e ↦ rw (e, read_report) tt
    | inr (text, e) ↦
        rw (e, read_report)
          (elim (Option-cases (c.parse text)) [
            | inl f ↦ rw (f, read_report) tt
            | inr (root, f) ↦ rw (f, read_report) (report_root-IsShort root)
          ])
  ]

  finish_reading-IsShort : (reply : Reply) → IsShort (finish_reading c allocated reply).result
  unfolding finish_reading
  finish_reading-IsShort (no_memory true) = tt
  finish_reading-IsShort (no_memory false) = tt
  finish_reading-IsShort no_response = tt
  finish_reading-IsShort (response reply) = read_report-IsShort reply

-- `write` fails, takes nothing, or takes something.
sent-cases : (w : Option ℕ) → ((w ≡ none) ⊎ (w ≡ some zero)) ⊎ ((k : ℕ) × (w ≡ some (suc k)))
sent-cases none = inl (inl refl)
sent-cases (some zero) = inl (inr refl)
sent-cases (some (suc k)) = inr (k, refl)

pub get_weather_data-IsShort :
    (c : Cjson) (net : Network) (city : Bytes) → IsShort (get_weather_data c net city).result
unfolding get_weather_data
get_weather_data-IsShort c net city = elim (Bool-cases net.resolved) [
  | inr n ↦ rw (n, get_weather_data) tt
  | inl y ↦
      rw (y, get_weather_data)
        (elim (Bool-cases net.connects) [
          | inr n ↦ rw (n, get_weather_data) tt
          | inl y' ↦
              rw (y', get_weather_data)
                (elim (sent-cases net.written) [
                  | inl (inl n) ↦ rw (n, get_weather_data) tt
                  | inl (inr n) ↦ rw (n, get_weather_data) tt
                  | inr (k, e) ↦
                      rw (e, get_weather_data)
                        (finish_reading-IsShort c net.allocated (read_response net.reads))
                ])
        ])
]
