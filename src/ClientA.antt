-- ===== src/ClientA.antt =====
-- 1_服务器_客户端/1_客户端/client_A.c: the client that asks the weather service and sends the reports.
-- Each `recv` and each query is an argument; `none` is behaviour that C leaves undefined.
pub mod Retry
pub mod Waiting
pub mod Serving
pub mod Main
pub mod Lengths
pub mod Handshake
mod Tests
use smart_home_weather_monit.Base.{
  ℕ, zero, suc, ◌+◌, Bool, true, false, not, ◌&&◌, Option, none, some, List, [], ◌∷◌, ◌++◌,
  if◌then◌else◌,
}
use smart_home_weather_monit.Text.{Bytes, bytes, contains, received, text_of, snprintf}
use smart_home_weather_monit.Forecast.City.{set_current_city, get_current_city, initial_city}
use smart_home_weather_monit.Forecast.Query.{Result, undefined, null, weather}

abbrev pub buffer_size : ℕ
buffer_size = 1024

-- `client_b_connected`, `client_c_connected`, `running` and the buffer of forecast.c.
pub record State : Type 0 where
  pub client_b_connected : Bool
  pub client_c_connected : Bool
  pub running : Bool
  pub city : Bytes

-- A query of `get_weather_data`: for each city and each attempt, what it returns.
abbrev pub Queries : Type 0
Queries = Bytes → ℕ → Result

-- The attempts of `send_weather_to_server`, from the i-th on.
unfoldable pub retry : (ℕ → Result) → ℕ → ℕ → Result
retry query zero i = null
retry query (suc left) i = elim (query i) [
  | weather t ↦ weather t
  | null ↦ retry query left (i + 1)
  | undefined ↦ undefined
]

abbrev pub max_retries : ℕ
max_retries = 3

abbrev pub error_text : Bytes → Bytes
error_text city = bytes "无法获取 " ++ (city ++ bytes " 的天气信息，请检查城市名是否正确")

-- The text for a city that could not be asked for, in a buffer of 256 bytes.
unfoldable pub error_message : Bytes → Bytes
error_message city = snprintf 256 (error_text city)

-- `send_weather_to_server`: the message that it sends.
unfoldable pub send_weather_to_server : Queries → Bytes → Option Bytes
send_weather_to_server queries buffer = elim (get_current_city buffer) [
  | none ↦ none
  | some city ↦ elim (retry (queries city) max_retries 0) [
    | weather t ↦ some t
    | null ↦ some (error_message city)
    | undefined ↦ none
  ]
]

-- The text in `buffer` after a `recv` of `msg`.
unfoldable pub received_text : Bytes → Option Bytes
unfolding received text_of
received_text msg = text_of (received buffer_size msg)

-- One turn of a loop: whether SIGINT arrives before its test, what `recv` returns (`none` is a timeout
-- or a closed connection), and what queries return in it.
pub record Turn : Type 0 where
  pub interrupted : Bool
  pub message : Option Bytes
  pub queries : Queries

-- `signal_handler`, when SIGINT has arrived.
abbrev pub signal_handler : Bool → State → State
signal_handler true s = record s { running = false }
signal_handler false s = s

-- One round of the loop that waits for client B: whether the loop goes on, and the state.
abbrev pub wait_message : State → Bytes → Bool × State
wait_message s text =
    if contains text (bytes "CLIENT_B_CONNECTED")
    then (false, record s { client_b_connected = true })
    else if contains text (bytes "CLIENT_C_CONNECTED")
    then (true, record s { client_c_connected = true })
    else (true, s)

abbrev pub wait_received : State → Option Bytes → Option (Bool × State)
unfolding received_text
wait_received s none = some (true, s)
wait_received s (some msg) = elim (received_text msg) [
  | none ↦ none
  | some text ↦ some (wait_message s text)
]

-- The loop of at most five rounds.
unfoldable pub wait_for_b : (ℕ → Turn) → ℕ → ℕ → State → Option State
wait_for_b turns zero i s = some s
wait_for_b turns (suc left) i s =
    let s' = signal_handler (turns i).interrupted s in
    elim s'.running [
      | false ↦ some s'
      | true ↦ elim (wait_received s' (turns i).message) [
        | none ↦ none
        | some (true, next) ↦ wait_for_b turns left (i + 1) next
        | some (false, next) ↦ some next
      ]
    ]

-- A message in the main loop: the state, and the message that is sent.
unfoldable pub handle_message : Queries → State → Bytes → Option (State × Bytes)
unfolding send_weather_to_server set_current_city
handle_message queries s text =
    if contains text (bytes "CLIENT_C_CONNECTED")
    then elim (send_weather_to_server queries s.city) [
      | none ↦ none
      | some msg ↦ some (record s { client_c_connected = true }, msg)
    ]
    else elim (send_weather_to_server queries (set_current_city s.city (some text))) [
      | none ↦ none
      | some msg ↦ some (record s { city = set_current_city s.city (some text) }, msg)
    ]

-- The main loop over the turns given: the last state, and the messages sent. Where the turns end the
-- client waits in `recv`.
unfoldable pub serve : List Turn → State → Option (State × List Bytes)
unfolding handle_message received_text
serve [] s = some (s, [])
serve (t ∷ ts) s =
    let s' = signal_handler t.interrupted s in
    elim s'.running [
      | false ↦ some (s', [])
      | true ↦ elim t.message [
        | none ↦ some (record s' { running = false }, [])
        | some msg ↦ elim (received_text msg) [
          | none ↦ none
          | some text ↦ elim (handle_message t.queries s' text) [
            | none ↦ none
            | some (next, out) ↦ elim (serve ts next) [
              | none ↦ none
              | some (last, outs) ↦ some (last, out ∷ outs)
            ]
          ]
        ]
      ]
    ]

-- What `main` is given: `socket`, `inet_pton` and `connect`, the first `recv`, the turns of the two
-- loops, and the query between them.
pub record Session : Type 0 where
  pub has_socket : Bool
  pub address_valid : Bool
  pub connects : Bool
  pub confirmation : Bytes
  pub waiting : ℕ → Turn
  pub first_query : Bytes → Result
  pub turns : List Turn

abbrev pub initial_state : State
initial_state = record {
  client_b_connected = false;
  client_c_connected = false;
  running = true;
  city = initial_city;
}

-- The first report, sent once client B is there; nothing is sent if the query fails.
unfoldable pub first_report : Result → Option (List Bytes)
first_report (weather t) = some (t ∷ [])
first_report null = some []
first_report undefined = none

-- The part of `main` behind the wait.
unfoldable pub run_connected : Session → State → Option (List Bytes)
unfolding serve first_report get_current_city
run_connected env s =
    if s.client_b_connected
    then elim (get_current_city s.city) [
      | none ↦ none
      | some city ↦ elim (first_report (env.first_query city)) [
        | none ↦ none
        | some first ↦ elim (serve env.turns s) [
          | none ↦ none
          | some (last, outs) ↦ some (first ++ outs)
        ]
      ]
    ]
    else some []

-- `main`: the exit status and all that is sent to the server.
unfoldable pub client_main : Session → Option (ℕ × List Bytes)
unfolding wait_for_b run_connected received_text
client_main env =
    if env.has_socket && env.address_valid && env.connects
    then elim (received_text env.confirmation) [
      | none ↦ none
      | some text ↦ elim (wait_for_b env.waiting 5 0 initial_state) [
        | none ↦ none
        | some s ↦ elim (run_connected env s) [
          | none ↦ none
          | some outs ↦ some (0, bytes "CLIENT_A" ∷ outs)
        ]
      ]
    ]
    else some (1, [])
