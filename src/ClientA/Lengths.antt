-- ===== src/ClientA/Lengths.antt =====
-- How long the messages of client A's main loop can be, when its queries are those of forecast.c.
use smart_home_weather_monit.Base.{
  ℕ, ◌≤◌, ◌≡◌, ap, sym, ◌∙◌, true, false, Option, none, some, List, [], ◌∷◌, arith, inl, inr,
  Bool-cases, Option-cases, length, All,
}
use smart_home_weather_monit.Text.{Bytes, bytes, contains}
use smart_home_weather_monit.Cjson.{Cjson}
use smart_home_weather_monit.Forecast.City.{set_current_city, get_current_city}
use smart_home_weather_monit.Forecast.Query.{
  Result, undefined, null, weather, Network, get_weather_data,
}
use smart_home_weather_monit.Forecast.Lengths.{IsShort, get_weather_data-IsShort}
use smart_home_weather_monit.ClientA.{
  State, Turn, Queries, signal_handler, received_text, send_weather_to_server, handle_message,
  serve, error_message, first_report,
}
use smart_home_weather_monit.ClientA.Retry.{Answers, report, apology, crash, send_weather-Answers}

-- Every query is a run of `get_weather_data`.
abbrev pub Asks : Cjson → Queries → Type 0
Asks c queries =
    (net : Bytes → ℕ → Network) × ((city : Bytes) (k : ℕ)
      → queries city k ≡ (get_weather_data c (net city k) city).result)

abbrev pub IsSmall : Bytes → Type 0
IsSmall t = length t ≤ 399

-- A message that is sent, with the state that follows.
abbrev with_state : (Bytes → State) → Option Bytes → Option (State × Bytes)
with_state after none = none
with_state after (some msg) = some (after msg, msg)

module _ (c : Cjson) where
  Asks-IsSmall :
      (queries : Queries) (city t : Bytes) (k : ℕ)
      → Asks c queries
      → queries city k ≡ weather t
      → IsSmall t
  Asks-IsSmall queries city t k (net, h) e =
      rw (sym (h city k) ∙ e) at (get_weather_data-IsShort c (net city k) city)

  Answers-IsSmall :
      (queries : Queries) (city msg : Bytes)
      → Asks c queries
      → Answers (queries city) city (some msg)
      → IsSmall msg
  Answers-IsSmall queries city msg a (report k t _ l h e f) =
      let same : msg ≡ t = cc in rw same (Asks-IsSmall queries city t k a e)
  Answers-IsSmall queries city msg a (apology _ h f l) =
      let same : msg ≡ error_message city = cc in rw same (omega (arith, l))
  Answers-IsSmall queries city msg a (crash k _ l h e f) = absurd (ground (arith, f))

  send-IsSmall :
      (queries : Queries) (buffer msg : Bytes)
      → Asks c queries
      → send_weather_to_server queries buffer ≡ some msg
      → IsSmall msg
  unfolding send_weather_to_server
  send-IsSmall queries buffer msg a e = elim (Option-cases (get_current_city buffer)) [
    | inl f ↦ absurd (ground (arith, e, f))
    | inr (city, f) ↦
        Answers-IsSmall queries city msg a (rw e at (send_weather-Answers queries buffer city f))
  ]

  sent_out :
      (queries : Queries) (buffer : Bytes) (next : State) (out : Bytes) (after : Bytes → State)
      → Asks c queries
      → with_state after (send_weather_to_server queries buffer) ≡ some (next, out)
      → IsSmall out
  sent_out queries buffer next out after a e =
      elim (Option-cases (send_weather_to_server queries buffer)) [
        | inl f ↦ absurd (ground (arith, e, f))
        | inr (msg, f) ↦
            let same : msg ≡ out = ground (arith, e, f) in
            send-IsSmall queries buffer out a (f ∙ ap some same)
      ]

  handle-IsSmall :
      (queries : Queries) (s next : State) (text out : Bytes)
      → Asks c queries
      → handle_message queries s text ≡ some (next, out)
      → IsSmall out
  unfolding handle_message
  handle-IsSmall queries s next text out a e =
      elim (Bool-cases (contains text (bytes "CLIENT_C_CONNECTED"))) [
        | inl y ↦
            sent_out queries s.city next out (λ msg. record s { client_c_connected = true }) a
              (rw (y, handle_message) at e)
        | inr n ↦
            sent_out queries (set_current_city s.city (some text)) next out
              (λ msg. record s { city = set_current_city s.city (some text) }) a
              (rw (n, handle_message) at e)
      ]

  same_outs :
      (st last : State) (xs outs : List Bytes)
      → ◌≡◌ {A = Option (State × List Bytes)} (some (st, xs)) (some (last, outs))
      → xs ≡ outs
  same_outs st last xs outs e = cc

  -- What the loop does with a message.
  abbrev after_reply : List Turn → Option (State × Bytes) → Option (State × List Bytes)
  after_reply ts none = none
  after_reply ts (some (next, out)) = elim (serve ts next) [
    | none ↦ none
    | some (last, outs) ↦ some (last, out ∷ outs)
  ]

  abbrev AllSmall : List Turn → Type 0
  AllSmall ts =
      (s : State) (last : State) (outs : List Bytes)
      → serve ts s ≡ some (last, outs)
      → All IsSmall outs

  reply-IsSmall :
      (ts : List Turn) (next last : State) (out : Bytes) (outs : List Bytes)
      → AllSmall ts
      → IsSmall out
      → after_reply ts (some (next, out)) ≡ some (last, outs)
      → All IsSmall outs
  reply-IsSmall ts next last out outs later small e = elim (Option-cases (serve ts next)) [
    | inl f ↦ absurd (ground (arith, e, f))
    | inr ((end, rest), f) ↦
        let same : out ∷ rest ≡ outs = ground (arith, e, f) in
        rw (sym same) (small, later next end rest f)
  ]

  abbrev after_received : List Turn → State → Queries → Option Bytes → Option (State × List Bytes)
  after_received ts s queries none = none
  after_received ts s queries (some text) = after_reply ts (handle_message queries s text)

  received-IsSmall :
      (ts : List Turn) (s last : State) (outs : List Bytes) (msg : Bytes) (queries : Queries)
      → Asks c queries
      → AllSmall ts
      → after_received ts s queries (received_text msg) ≡ some (last, outs)
      → All IsSmall outs
  received-IsSmall ts s last outs msg queries a later e = elim (Option-cases (received_text msg)) [
    | inl f ↦ absurd (ground (arith, e, f))
    | inr (text, f) ↦
        let e' = rw f at e in
        elim (Option-cases (handle_message queries s text)) [
          | inl h ↦ absurd (ground (arith, e', h))
          | inr ((next, out), h) ↦
              reply-IsSmall ts next last out outs later (handle-IsSmall queries s next text out a h)
                (rw h at e')
        ]
  ]

  -- Every message of a run of the main loop is small.
  pub serve-IsSmall :
      (ts : List Turn) (s last : State) (outs : List Bytes)
      → All (λ t. Asks c t.queries) ts
      → serve ts s ≡ some (last, outs)
      → All IsSmall outs
  unfolding serve
  serve-IsSmall [] s last outs a e = rw (sym (same_outs s last [] outs e)) tt
  serve-IsSmall (t ∷ ts) s last outs a e =
      let s' = signal_handler t.interrupted s in
      elim (Bool-cases s'.running) [
        | inr off ↦ rw (sym (same_outs s' last [] outs (rw (off, serve) at e))) tt
        | inl on ↦ elim (Option-cases t.message) [
          | inl lost ↦
              rw
                (sym (
                  same_outs (record s' { running = false }) last [] outs
                    (rw (lost) at (rw (on, serve) at e))))
                tt
          | inr (msg, got) ↦
              received-IsSmall ts s' last outs msg t.queries a.0
                (λ next end rest. serve-IsSmall ts next end rest a.1)
                (rw got at (rw (on, serve) at e))
        ]
      ]

  pub first_report-IsSmall :
      (r : Result) (first : List Bytes)
      → IsShort r
      → first_report r ≡ some first
      → All IsSmall first
  unfolding first_report
  first_report-IsSmall (weather t) first h e =
      let same : t ∷ [] ≡ first = ground (arith, e) in rw (sym same) (h, tt)
  first_report-IsSmall null first h e =
      let same : [] ≡ first = ground (arith, e) in rw (sym same) tt
  first_report-IsSmall undefined first h e = absurd (ground (arith, e))
