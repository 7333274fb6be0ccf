-- ===== src/System/Session.antt =====
-- A whole session: client A and client B from their start, and the server between them.
use smart_home_weather_monit.Base.{
  ℕ, ◌<◌, ◌≡◌, refl, ap, ◌∙◌, true, ◌&&◌, some, List, ◌∷◌, arith, length, map, All, append-nil,
}
use smart_home_weather_monit.Text.{Bytes, bytes, text_of, received}
use smart_home_weather_monit.Text.Buffers.{IsText}
use smart_home_weather_monit.Forecast.City.{initial_city, get_current_city}
use smart_home_weather_monit.Forecast.Query.{weather}
use smart_home_weather_monit.Server.{sent, forward, send_if, connected}
use smart_home_weather_monit.Server.Threads.{Server, Reach}
use smart_home_weather_monit.Server.Invariant.{role_a}
use smart_home_weather_monit.Server.Routing.{forward-eq-deliveries}
use smart_home_weather_monit.ClientA
use smart_home_weather_monit.ClientA.{
  State, initial_state, first_report, run_connected, serve, wait_for_b,
}
use smart_home_weather_monit.ClientA.Waiting.{UntilB, wait-Finds}
use smart_home_weather_monit.ClientA.Main.{client_main_lem}
use smart_home_weather_monit.ClientB
use smart_home_weather_monit.ClientB.{Round, talk}
use smart_home_weather_monit.System.City.{received_whole}
use smart_home_weather_monit.System.Dialogue.{
  Exchange, IsAsked, round_of, turn_of, dialogue, talk-dialogue, serve-reports, Passes,
  dialogue-Passes,
}

-- Client A is connected and confirmed, is told of client B within its wait, finds the weather of its
-- first city, and then receives the cities that are asked for.
pub record IsServed (env : ClientA.Session) (first : Bytes) (xs : List Exchange) : Type 0 where
  pub connects : (env.has_socket && env.address_valid && env.connects) ≡ true
  pub confirmation : env.confirmation ≡ connected
  pub told : UntilB env.waiting 5 0
  pub found : env.first_query (bytes "广州") ≡ weather first
  pub text : IsText first
  pub short : length first < 1024
  pub asked : env.turns ≡ map turn_of xs
  pub answered : All IsAsked xs

connected_whole : text_of (received 1024 connected) ≡ some connected
connected_whole = received_whole connected (omega arith) (omega arith)

initial_city_text : get_current_city initial_city ≡ some (bytes "广州")
unfolding get_current_city text_of
initial_city_text = refl

run_connected-reports :
    (env : ClientA.Session) (first : Bytes) (xs : List Exchange) (s : State)
    → IsServed env first xs
    → s.client_b_connected ≡ true
    → s.running ≡ true
    → s.city ≡ initial_city
    → run_connected env s ≡ some (first ∷ map (λ x. x.report) xs)
unfolding run_connected first_report
run_connected-reports env first xs s v b on c =
    let city = ap get_current_city c ∙ initial_city_text in
    let (last, e) = serve-reports xs s on (ap length c) v.answered in
    let f : serve env.turns s ≡ some (last, map (λ x. x.report) xs) = rw (v.asked) e in
    rw (b, run_connected)
      (rw (city, run_connected)
        (rw (v.found, run_connected, first_report) (rw (f, run_connected, first_report) refl)))

client_a-reports :
    (env : ClientA.Session) (first : Bytes) (xs : List Exchange)
    → IsServed env first xs
    → ClientA.client_main env ≡ some (0, bytes "CLIENT_A" ∷ first ∷ map (λ x. x.report) xs)
unfolding ClientA.received_text
client_a-reports env first xs v =
    let (s, e, b, on, c) = wait-Finds env.waiting 5 0 initial_state refl v.told in
    client_main_lem env connected s (first ∷ map (λ x. x.report) xs) v.connects
      (ap ClientA.received_text v.confirmation ∙ connected_whole) e
      (run_connected-reports env first xs s v b on c)

client_b-main :
    (confirmation confirmed first report : Bytes) (rounds : List Round) (es : List ClientB.Event)
    → text_of (received 1024 confirmation) ≡ some confirmed
    → text_of (received 1024 first) ≡ some report
    → talk rounds ≡ some es
    → ClientB.client_main confirmation first rounds
      ≡ some (ClientB.sent (bytes "CLIENT_B") ∷ ClientB.shown confirmed ∷ ClientB.shown report ∷ es)
unfolding ClientB.client_main
client_b-main confirmation confirmed first report rounds es e f g =
    rw (e, ClientB.client_main) (rw (f, ClientB.client_main) (rw (g, ClientB.client_main) refl))

client_b-dialogue :
    (first : Bytes) (xs : List Exchange)
    → IsText first
    → length first < 1024
    → All IsAsked xs
    → ClientB.client_main connected first (map round_of xs)
      ≡ some (
          ClientB.sent (bytes "CLIENT_B")
          ∷ ClientB.shown connected
          ∷ ClientB.shown first
          ∷ dialogue xs)
client_b-dialogue first xs t l h =
    client_b-main connected connected first first (map round_of xs) (dialogue xs) connected_whole
      (received_whole first t l) (talk-dialogue xs h)

-- A session of client A and client B, from their start. Client A is confirmed and told of client B within
-- its wait, with no interrupt before, and the query for 广州 succeeds; the cities that the user of client B
-- types fit and are lines other than "quit", one of the first three queries for each succeeds, and every
-- report is a text that fits the buffer of 1024 bytes. Then all that client A sends is its identity, the
-- report for 广州 and, for each city, its report; client B sends each city once, and shows the confirmation,
-- the first report, and the report of each city before it sends the next; and in a reachable state in which
-- both are registered, the server passes each city to client A alone, and each report to client B, and to
-- client C if it is there.
pub session_answered :
    (s : Server) (a b : ℕ) (env : ClientA.Session) (first : Bytes) (xs : List Exchange)
    → Reach s
    → s.clients.client_a ≡ some a
    → s.clients.client_b ≡ some b
    → IsServed env first xs
    → (ClientA.client_main env ≡ some (0, bytes "CLIENT_A" ∷ first ∷ map (λ x. x.report) xs))
      × (ClientB.client_main connected first (map round_of xs)
          ≡ some (
              ClientB.sent (bytes "CLIENT_B")
              ∷ ClientB.shown connected
              ∷ ClientB.shown first
              ∷ dialogue xs))
      × (forward s.clients a first ≡ sent b first ∷ send_if s.clients.client_c first)
      × All (Passes s a b) xs
session_answered s a b env first xs r ea eb v = (
  client_a-reports env first xs v,
  client_b-dialogue first xs v.text v.short v.answered,
  ground (
    arith,
    forward-eq-deliveries role_a a first r ea,
    append-nil (send_if s.clients.client_c first),
  ),
  dialogue-Passes s a b r ea eb xs v.answered,
)
