-- ===== src/ClientA/Main.antt =====
-- The whole of client A's `main`, on every session.
use smart_home_weather_monit.Base.{
  ℕ, zero, suc, ◌+◌, ◌<◌, ◌≡◌, ◌≢◌, ◌⊎◌, refl, ap, ◌∙◌, true, false, ◌&&◌, Option, none, some, List,
  [], ◌∷◌, ◌++◌, arith, inl, inr, Bool-cases, length, All,
}
use smart_home_weather_monit.Text.{Bytes, bytes, text_of, c_text, contains}
use smart_home_weather_monit.Text.Buffers.{text_of-received}
use smart_home_weather_monit.Forecast.City.{get_current_city, initial_city}
use smart_home_weather_monit.Forecast.Query.{Result, undefined, null, weather}
use smart_home_weather_monit.ClientA.{
  State, Turn, Session, received_text, wait_message, wait_received, wait_for_b, initial_state,
  first_report, run_connected, client_main,
}
use smart_home_weather_monit.ClientA.Serving.{HasCity, IsDefined, Answering, serve_total}

-- Every received message leaves room for a NUL, and no query reads behind a string.
pub record IsDefinedSession (env : Session) : Type 0 where
  pub confirmation : length env.confirmation < 1024
  pub waiting : (j : ℕ) (msg : Bytes) → (env.waiting j).message ≡ some msg → length msg < 1024
  pub first_query : (city : Bytes) → env.first_query city ≢ undefined
  pub turns : All IsDefined env.turns

-- A message tells of client B.
abbrev pub TellsB : Option Bytes → Type 0
TellsB none = ⊥
TellsB (some msg) = contains (c_text msg) (bytes "CLIENT_B_CONNECTED") ≡ true

abbrev pub Silent : Option Bytes → Type 0
Silent none = Unit
Silent (some msg) = contains (c_text msg) (bytes "CLIENT_B_CONNECTED") ≡ false

-- Within so many rounds client B is told of, with no interrupt before.
abbrev pub Hears : (ℕ → Turn) → (left i : ℕ) → Type 0
Hears turns zero i = ⊥
Hears turns (suc left) i =
    ((turns i).interrupted ≡ false)
    × (TellsB (turns i).message ⊎ (Silent (turns i).message × Hears turns left (i + 1)))

-- No round up to the first interrupt tells of client B.
abbrev pub Misses : (ℕ → Turn) → (left i : ℕ) → Type 0
Misses turns zero i = Unit
Misses turns (suc left) i =
    ((turns i).interrupted ≡ true) ⊎ (Silent (turns i).message × Misses turns left (i + 1))

-- The report before the loop: sent if the query finds one.
abbrev pub FirstReport : Result → List Bytes → Type 0
FirstReport (weather t) first = first ≡ t ∷ []
FirstReport null first = first ≡ []
FirstReport undefined first = ⊥

-- How a session ends, with its status and all that was sent.
pub data Ends (env : Session) : ℕ → List Bytes → Type 0 where
  unconnected :
      (status : ℕ) (sent : List Bytes)
      → (env.has_socket && env.address_valid && env.connects) ≡ false
      → status ≡ 1
      → sent ≡ []
      → Ends env status sent
  alone :
      (status : ℕ) (sent : List Bytes)
      → (env.has_socket && env.address_valid && env.connects) ≡ true
      → Misses env.waiting 5 0
      → status ≡ 0
      → sent ≡ bytes "CLIENT_A" ∷ []
      → Ends env status sent
  served :
      (status : ℕ) (sent first outs : List Bytes)
      → (env.has_socket && env.address_valid && env.connects) ≡ true
      → Hears env.waiting 5 0
      → FirstReport (env.first_query (bytes "广州")) first
      → Answering initial_city env.turns outs
      → status ≡ 0
      → sent ≡ bytes "CLIENT_A" ∷ (first ++ outs)
      → Ends env status sent

received_text-short : (msg : Bytes) → length msg < 1024 → received_text msg ≡ some (c_text msg)
unfolding received_text
received_text-short msg h = text_of-received 1024 msg h

-- A wait that is defined and leaves the city alone; it finds client B just if it is heard of.
abbrev Waits : (ℕ → Turn) → ℕ → ℕ → State → Option State → Type 0
Waits turns left i s r =
    (last : State) × (r ≡ some last)
    × (last.city ≡ s.city)
    × (((last.client_b_connected ≡ false) × Misses turns left i)
        ⊎ ((last.client_b_connected ≡ true) × (last.running ≡ true) × Hears turns left i))

-- One message of the wait.
OneRound : State → Option Bytes → Type 0
OneRound s m =
    (next : State) × (next.city ≡ s.city)
    × (next.running ≡ s.running)
    × (((wait_received s m ≡ some (true, next)) × (next.client_b_connected ≡ false) × Silent m)
        ⊎ ((wait_received s m ≡ some (false, next)) × (next.client_b_connected ≡ true) × TellsB m))

wait_received_total :
    (s : State) (m : Option Bytes)
    → s.client_b_connected ≡ false
    → ((msg : Bytes) → m ≡ some msg → length msg < 1024)
    → OneRound s m
unfolding OneRound wait_received
wait_received_total s none b h = (s, refl, refl, inl (refl, b, tt))
wait_received_total s (some msg) b h =
    let e = received_text-short msg (h msg refl) in
    elim (Bool-cases (contains (c_text msg) (bytes "CLIENT_B_CONNECTED"))) [
      | inl tells ↦ (
        record s { client_b_connected = true },
        refl,
        refl,
        inr (ground (arith, e, tells), refl, tells),
      )
      | inr silent ↦ (
        (wait_message s (c_text msg)).1,
        ground arith,
        ground arith,
        inl (ground (arith, e, silent), ground arith, silent),
      )
    ]

wait_total :
    (turns : ℕ → Turn) (left i : ℕ) (s : State)
    → s.client_b_connected ≡ false
    → ((j : ℕ) (msg : Bytes) → (turns j).message ≡ some msg → length msg < 1024)
    → s.running ≡ true
    → Waits turns left i s (wait_for_b turns left i s)
unfolding wait_for_b OneRound
wait_total turns zero i s b h on = (s, refl, refl, inl (b, tt))
wait_total turns (suc left) i s b h on = elim (Bool-cases (turns i).interrupted) [
  | inl stop ↦ (record s { running = false }, ground (arith, stop), refl, inl (b, inl stop))
  | inr go ↦
      let (next, c, run, outcome) = wait_received_total s (turns i).message b (h i) in
      elim outcome [
        | inr (e, told, tells) ↦
            (next, ground (arith, go, on, e), c, inr (told, run ∙ on, (go, inl tells)))
        | inl (e, nb, silent) ↦
            let (last, f, c2, found) = wait_total turns left (i + 1) next nb h (run ∙ on) in
            (
              last,
              ground (arith, go, on, e, f),
              c2 ∙ c,
              elim found [
                | inl (none_yet, misses) ↦ inl (none_yet, inr (silent, misses))
                | inr (told, runs, hears) ↦ inr (told, runs, (go, inr (silent, hears)))
              ],
            )
      ]
]

first_report-FirstReport :
    (r : Result)
    → r ≢ undefined
    → (first : List Bytes) × (first_report r ≡ some first) × FirstReport r first
unfolding first_report
first_report-FirstReport (weather t) h = (t ∷ [], refl, refl)
first_report-FirstReport null h = ([], refl, refl)
first_report-FirstReport undefined h = absurd (h refl)

initial_city-text : get_current_city initial_city ≡ some (bytes "广州")
unfolding get_current_city text_of
initial_city-text = refl

initial_city-HasCity : HasCity initial_city
initial_city-HasCity = (bytes "广州", initial_city-text, refl)

-- What is sent behind the identity.
abbrev Sends : Session → Option (List Bytes) → Type 0
Sends env r =
    (first : List Bytes) × (outs : List Bytes) × (r ≡ some (first ++ outs))
    × FirstReport (env.first_query (bytes "广州")) first
    × Answering initial_city env.turns outs

run_connected_served :
    (env : Session) (s : State)
    → IsDefinedSession env
    → s.client_b_connected ≡ true
    → s.running ≡ true
    → s.city ≡ initial_city
    → Sends env (run_connected env s)
unfolding run_connected
run_connected_served env s v b on c =
    let named = ap get_current_city c ∙ initial_city-text in
    let (last, outs, f, a) = serve_total env.turns s on (rw c initial_city-HasCity) v.turns in
    let (first, g, r) =
      first_report-FirstReport (env.first_query (bytes "广州")) (v.first_query (bytes "广州")) in
    (first, outs, ground (arith, b, named, g, f), r, rw c at a)

run_connected_alone :
    (env : Session) (s : State) → s.client_b_connected ≡ false → run_connected env s ≡ some []
unfolding run_connected
run_connected_alone env s b = rw (b, run_connected) refl

pub client_main_lem :
    (env : Session) (text : Bytes) (s : State) (outs : List Bytes)
    → (env.has_socket && env.address_valid && env.connects) ≡ true
    → received_text env.confirmation ≡ some text
    → wait_for_b env.waiting 5 0 initial_state ≡ some s
    → run_connected env s ≡ some outs
    → client_main env ≡ some (0, bytes "CLIENT_A" ∷ outs)
unfolding client_main
client_main_lem env text s outs a b c d =
    rw (a, client_main) (rw (b, client_main) (rw (c, client_main) (rw (d, client_main) refl)))

client_main_unconnected :
    (env : Session)
    → (env.has_socket && env.address_valid && env.connects) ≡ false
    → client_main env ≡ some (1, [])
unfolding client_main
client_main_unconnected env a = rw (a, client_main) refl

-- Client A's main is defined on every session whose messages leave room for a NUL and whose queries are
-- defined. Without a connection it ends with status 1 and sends nothing. With one it sends its identity;
-- if none of the five rounds of its wait, up to the first interrupt, brings a message that tells of
-- client B, it sends nothing else; and if one does, it sends the report for its first city, if the query
-- finds one, and then an answer to each message that it receives up to the first interrupt or lost
-- connection, for the city that the message names or, on a notice of client C, for the city that it has:
-- the first report that three attempts find, or an apology.
pub client_main_total :
    (env : Session)
    → IsDefinedSession env
    → (status : ℕ) × (sent : List Bytes) × (client_main env ≡ some (status, sent))
      × Ends env status sent
client_main_total env v = elim (Bool-cases (env.has_socket && env.address_valid && env.connects)) [
  | inr n ↦ (1, [], client_main_unconnected env n, unconnected 1 [] n refl refl)
  | inl y ↦
      let e = received_text-short env.confirmation v.confirmation in
      let (s, f, c, found) = wait_total env.waiting 5 0 initial_state refl v.waiting refl in
      elim found [
        | inl (n, misses) ↦ (
          0,
          bytes "CLIENT_A" ∷ [],
          client_main_lem env (c_text env.confirmation) s [] y e f (run_connected_alone env s n),
          alone 0 (bytes "CLIENT_A" ∷ []) y misses refl refl,
        )
        | inr (b, on, hears) ↦
            let (first, outs, h, r, a) = run_connected_served env s v b on c in
            (
              0,
              bytes "CLIENT_A" ∷ (first ++ outs),
              client_main_lem env (c_text env.confirmation) s (first ++ outs) y e f h,
              served 0 (bytes "CLIENT_A" ∷ (first ++ outs)) first outs y hears r a refl refl,
            )
      ]
]
