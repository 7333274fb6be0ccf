-- ===== src/ClientA/Serving.antt =====
-- The main loop of client A: which messages are answered.
use smart_home_weather_monit.Base.{
  ℕ, zero, suc, ◌+◌, ◌<◌, ◌≡◌, ◌≢◌, refl, true, false, none, some, List, [], ◌∷◌, arith, inl, inr,
  Bool-cases, length, All, take, Option-cases,
}
use smart_home_weather_monit.Text.{Bytes, bytes, contains, c_text}
use smart_home_weather_monit.Text.Buffers.{IsText, text_of-received, c_text-IsText}
use smart_home_weather_monit.Forecast.City.{
  set_current_city, get_current_city, get-set_current_city, city_size,
}
use smart_home_weather_monit.Forecast.Query.{Result, undefined, null, weather}
use smart_home_weather_monit.ClientA.Retry.{Answers, send_weather-Answers}
use smart_home_weather_monit.ClientA.{
  State, Turn, Queries, retry, error_message, received_text, send_weather_to_server, handle_message,
  serve,
}

-- The city buffer has its 50 bytes, and a NUL ends the city in it.
abbrev pub HasCity : Bytes → Type 0
HasCity buffer =
    (city : Bytes) × (get_current_city buffer ≡ some city) × (length buffer ≡ city_size)

-- No query of the turn reads behind a string, and a message leaves room for a NUL.
abbrev pub IsDefined : Turn → Type 0
IsDefined t =
    ((city : Bytes) (i : ℕ) → t.queries city i ≢ undefined)
    × ((msg : Bytes) → t.message ≡ some msg → length msg < 1024)

-- What is to be sent in these turns, for the city in the buffer: an answer to each message, up to the first
-- interrupt or lost connection. A message is a notice of client C, or else the new city.
pub data Answering : Bytes → List Turn → List Bytes → Type 0 where
  waits : (buffer : Bytes) → Answering buffer [] []
  stopped :
      (buffer : Bytes) (t : Turn) (ts : List Turn)
      → t.interrupted ≡ true
      → Answering buffer (t ∷ ts) []
  lost :
      (buffer : Bytes) (t : Turn) (ts : List Turn)
      → t.interrupted ≡ false
      → t.message ≡ none
      → Answering buffer (t ∷ ts) []
  notice :
      (buffer city msg out : Bytes) (t : Turn) (ts : List Turn) (outs : List Bytes)
      → t.interrupted ≡ false
      → t.message ≡ some msg
      → contains (c_text msg) (bytes "CLIENT_C_CONNECTED") ≡ true
      → get_current_city buffer ≡ some city
      → Answers (t.queries city) city (some out)
      → Answering buffer ts outs
      → Answering buffer (t ∷ ts) (out ∷ outs)
  new_city :
      (buffer city msg out : Bytes) (t : Turn) (ts : List Turn) (outs : List Bytes)
      → t.interrupted ≡ false
      → t.message ≡ some msg
      → contains (c_text msg) (bytes "CLIENT_C_CONNECTED") ≡ false
      → get_current_city (set_current_city buffer (some (c_text msg))) ≡ some city
      → Answers (t.queries city) city (some out)
      → Answering (set_current_city buffer (some (c_text msg))) ts outs
      → Answering buffer (t ∷ ts) (out ∷ outs)

set_current_city-HasCity :
    (buffer text : Bytes)
    → HasCity buffer
    → IsText text
    → HasCity (set_current_city buffer (some text))
set_current_city-HasCity buffer [] h t = unfold set_current_city in h
set_current_city-HasCity buffer (c ∷ cs) h t =
    let (e, l) = get-set_current_city buffer (c ∷ cs) h.2 t (λ e. cc) in (take 49 (c ∷ cs), e, l)

retry-defined :
    (query : ℕ → Result) (left i : ℕ)
    → ((j : ℕ) → query j ≢ undefined)
    → retry query left i ≢ undefined
unfolding retry
retry-defined query zero i h = λ e. cc
retry-defined query (suc left) i h = ground (arith, h i, retry-defined query left (i + 1) h)

-- A message is always sent.
send_total :
    (queries : Queries) (buffer : Bytes)
    → HasCity buffer
    → ((city : Bytes) (i : ℕ) → queries city i ≢ undefined)
    → (msg : Bytes) × (send_weather_to_server queries buffer ≡ some msg)
unfolding send_weather_to_server
send_total queries buffer (city, e, l) h = go (retry (queries city) 3 0) refl
  where
    go :
        (r : Result)
        → retry (queries city) 3 0 ≡ r
        → (msg : Bytes) × (send_weather_to_server queries buffer ≡ some msg)
    go (weather t) q = (t, ground arith)
    go null q = (error_message city, ground arith)
    go undefined q = absurd (retry-defined (queries city) 3 0 (h city) q)

-- A message is always sent, and it is what the attempts decide.
send_answered :
    (queries : Queries) (buffer : Bytes)
    → HasCity buffer
    → ((city : Bytes) (i : ℕ) → queries city i ≢ undefined)
    → (city : Bytes) × (msg : Bytes) × (get_current_city buffer ≡ some city)
      × (send_weather_to_server queries buffer ≡ some msg)
      × Answers (queries city) city (some msg)
send_answered queries buffer h d =
    let (city, e, l) = h in
    let (msg, f) = send_total queries buffer h d in
    (city, msg, e, f, rw f at (send_weather-Answers queries buffer city e))

-- The loop is defined, and sends what is to be sent.
abbrev pub Serves : List Turn → State → Type 0
Serves ts s =
    (last : State) × (outs : List Bytes) × (serve ts s ≡ some (last, outs))
    × Answering s.city ts outs

-- While client A runs and its turns are defined, the loop answers each message that it receives until the
-- first interrupt or lost connection.
pub serve_total :
    (ts : List Turn) (s : State)
    → s.running ≡ true
    → HasCity s.city
    → All IsDefined ts
    → Serves ts s
unfolding serve received_text handle_message
serve_total [] s on c d = (s, [], refl, waits s.city)
serve_total (t ∷ ts) s on c d = elim (Bool-cases t.interrupted) [
  | inl stop ↦ (record s { running = false }, [], ground arith, stopped s.city t ts stop)
  | inr go ↦ elim (Option-cases t.message) [
    | inl gone ↦ (record s { running = false }, [], ground arith, lost s.city t ts go gone)
    | inr (msg, q) ↦
        let heard = text_of-received 1024 msg (d.0.1 msg q) in
        elim (Bool-cases (contains (c_text msg) (bytes "CLIENT_C_CONNECTED"))) [
          | inl tells ↦
              let (city, out, e, f, a) = send_answered t.queries s.city c d.0.0 in
              let (last, outs, g, rest) =
                serve_total ts (record s { client_c_connected = true }) on c d.1 in
              (
                last,
                out ∷ outs,
                ground (arith, go, q, on, heard, tells, f, g),
                notice s.city city msg out t ts outs go q tells e a rest,
              )
          | inr names ↦
              let buffer = set_current_city s.city (some (c_text msg)) in
              let c' = set_current_city-HasCity s.city (c_text msg) c (c_text-IsText msg) in
              let (city, out, e, f, a) = send_answered t.queries buffer c' d.0.0 in
              let (last, outs, g, rest) = serve_total ts (record s { city = buffer }) on c' d.1 in
              (
                last,
                out ∷ outs,
                ground (arith, go, q, on, heard, names, f, g),
                new_city s.city city msg out t ts outs go q names e a rest,
              )
        ]
  ]
]
