-- ===== src/System/Sizes.antt =====
-- Whether the messages of client A fit the buffers of those who receive them.
use smart_home_weather_monit.Base.{
  ℕ, ◌≤◌, ◌≡◌, sym, ◌&&◌, some, List, [], ◌∷◌, ◌++◌, arith, inl, inr, Bool-cases, Option-cases,
  length, All, All-append,
}
use smart_home_weather_monit.Text.{Bytes, bytes}
use smart_home_weather_monit.Cjson.{Cjson}
use smart_home_weather_monit.Forecast.City.{get_current_city}
use smart_home_weather_monit.Forecast.Query.{Network, get_weather_data}
use smart_home_weather_monit.Forecast.Lengths.{get_weather_data-IsShort}
use smart_home_weather_monit.ClientA.{
  State, Session, received_text, serve, first_report, run_connected, wait_for_b, initial_state,
  client_main,
}
use smart_home_weather_monit.ClientA.Lengths.{Asks, IsSmall, serve-IsSmall, first_report-IsSmall}
use smart_home_weather_monit.ClientA.Main.{IsDefinedSession, client_main_total}
use smart_home_weather_monit.Text.{c_text}
use smart_home_weather_monit.Text.Buffers.{text_of-received}
use smart_home_weather_monit.Server
use smart_home_weather_monit.ClientB.{reply_text}

-- The query between the two loops of `main`, and those of all turns, are runs of `get_weather_data`.
pub record AsksForecast (c : Cjson) (env : Session) : Type 0 where
  pub first_net : Bytes → Network
  pub first :
      (city : Bytes) → env.first_query city ≡ (get_weather_data c (first_net city) city).result
  pub turns : All (λ t. Asks c t.queries) env.turns

module _ (c : Cjson) where
  run_connected-IsSmall :
      (env : Session) (s : State) (outs : List Bytes)
      → AsksForecast c env
      → run_connected env s ≡ some outs
      → All IsSmall outs
  unfolding run_connected
  run_connected-IsSmall env s outs v e = elim (Bool-cases s.client_b_connected) [
    | inr n ↦ let same : [] ≡ outs = ground (arith, e, n) in rw (sym same) tt
    | inl y ↦ elim (Option-cases (get_current_city s.city)) [
      | inl f ↦ absurd (ground (arith, e, y, f))
      | inr (city, f) ↦ elim (Option-cases (first_report (env.first_query city))) [
        | inl k ↦ absurd (ground (arith, e, y, f, k))
        | inr (sent_first, k) ↦ elim (Option-cases (serve env.turns s)) [
          | inl h ↦ absurd (ground (arith, e, y, f, k, h))
          | inr ((last, rest), h) ↦
              let same : sent_first ++ rest ≡ outs = ground (arith, e, y, f, k, h) in
              let small : All IsSmall sent_first =
                first_report-IsSmall c (env.first_query city) sent_first
                  (rw (v.first city) (get_weather_data-IsShort c (v.first_net city) city)) k in
              rw (sym same) (
                All-append IsSmall sent_first rest small
                  (serve-IsSmall c env.turns s last rest v.turns h))
        ]
      ]
    ]
  ]

  client_main-IsSmall :
      (env : Session) (status : ℕ) (sent : List Bytes)
      → AsksForecast c env
      → client_main env ≡ some (status, sent)
      → All IsSmall sent
  unfolding client_main
  client_main-IsSmall env status sent v e =
      elim (Bool-cases (env.has_socket && env.address_valid && env.connects)) [
        | inr n ↦ let same : [] ≡ sent = ground (arith, e, n) in rw (sym same) tt
        | inl y ↦ elim (Option-cases (received_text env.confirmation)) [
          | inl f ↦ absurd (ground (arith, e, y, f))
          | inr (text, f) ↦ elim (Option-cases (wait_for_b env.waiting 5 0 initial_state)) [
            | inl g ↦ absurd (ground (arith, e, y, f, g))
            | inr (s, g) ↦ elim (Option-cases (run_connected env s)) [
              | inl h ↦ absurd (ground (arith, e, y, f, g, h))
              | inr (outs, h) ↦
                  let same : bytes "CLIENT_A" ∷ outs ≡ sent = ground (arith, e, y, f, g, h) in
                  rw (sym same) (omega arith, run_connected-IsSmall env s outs v h)
            ]
          ]
        ]
      ]

-- The text is at most 399 bytes long, and read in one piece it is a text to the server and to client B.
abbrev pub Fits : Bytes → Type 0
Fits t =
    (length t ≤ 399)
    × (Server.received_text t ≡ some (c_text t))
    × (reply_text (some t) ≡ some (c_text t))

small-Fits : (t : Bytes) → IsSmall t → Fits t
unfolding Server.received_text reply_text
small-Fits t h = (h, text_of-received 1024 t (omega arith), text_of-received 1024 t (omega arith))

All-Fits : (ts : List Bytes) → All IsSmall ts → All Fits ts
All-Fits [] h = tt
All-Fits (t ∷ ts) h = (small-Fits t h.0, All-Fits ts h.1)

-- Let every query of a session of client A be a run of forecast.c, over whatever network and with whatever
-- cJSON, that does not read behind a string, and let the messages that client A receives leave room for a
-- NUL. Then client A's main is defined, and each message that it sends has at most 399 bytes; so the server
-- and client B, which receive it into 1024 bytes, each find a text in their buffers if it comes in one piece.
pub client_main-Fits :
    (c : Cjson) (env : Session)
    → IsDefinedSession env
    → AsksForecast c env
    → (status : ℕ) × (sent : List Bytes) × (client_main env ≡ some (status, sent)) × All Fits sent
client_main-Fits c env d v =
    let (status, sent, e, ends) = client_main_total env d in
    (status, sent, e, All-Fits sent (client_main-IsSmall c env status sent v e))
