-- ===== src/System/Reconnect.antt =====
-- Client B comes back while client A serves: what becomes of the notice of it.
use smart_home_weather_monit.Base.{
  ℕ, ◌<◌, ◌≡◌, refl, ap, ◌∙◌, Option, some, [], ◌∷◌, arith, length, append-nil,
}
use smart_home_weather_monit.Text.{Bytes, bytes, contains}
use smart_home_weather_monit.Text.Buffers.{IsText}
use smart_home_weather_monit.Forecast.City.{set_current_city, city_size, get-set_current_city}
use smart_home_weather_monit.Forecast.Query.{Result}
use smart_home_weather_monit.Server
use smart_home_weather_monit.Server.{Clients, Action, sent, identify, forward, send_if, b_connected}
use smart_home_weather_monit.Server.Threads.{Phase, Server, Reach, identifies, later}
use smart_home_weather_monit.Server.Invariant.{role_a}
use smart_home_weather_monit.Server.Routing.{forward-eq-deliveries, deliveries, audience}
use smart_home_weather_monit.ClientA
use smart_home_weather_monit.ClientA.{
  State, Queries, send_weather_to_server, error_message, handle_message,
}
use smart_home_weather_monit.ClientA.Retry.{
  Answers, report, apology, crash, Fails, send_weather-Answers,
}
use smart_home_weather_monit.ClientB.{reply_text}
use smart_home_weather_monit.System.City.{Stores, received_whole, reply_text-IsText}

-- What client A sends if the service does not know such a city.
abbrev pub apology_for_b : Bytes
apology_for_b = error_message b_connected

b_connected-IsText : IsText b_connected
b_connected-IsText = omega arith

apology-IsText : IsText apology_for_b
unfolding error_message
apology-IsText = omega arith

apology-short : length apology_for_b < 1024
unfolding error_message
apology-short = omega arith

only_apology :
    (query : ℕ → Result) (city : Bytes) (msg : Option Bytes)
    → Fails query 3
    → Answers query city msg
    → msg ≡ some (error_message city)
only_apology query city msg h (report k t _ l before e f) = absurd (ground (arith, h k l, e))
only_apology query city msg h (apology _ before f l) = f
only_apology query city msg h (crash k _ l before e f) = absurd (ground (arith, h k l, e))

notice-Stores :
    (queries : Queries) (st : State)
    → length st.city ≡ city_size
    → Fails (queries b_connected) 3
    → Stores queries st b_connected apology_for_b
unfolding handle_message contains
notice-Stores queries st size h =
    let buffer = set_current_city st.city (some b_connected) in
    let (kept, same) = get-set_current_city st.city b_connected size b_connected-IsText (λ e. cc) in
    let answer =
      only_apology (queries b_connected) b_connected (send_weather_to_server queries buffer) h
        (send_weather-Answers queries buffer b_connected kept) in
    (record st { city = buffer }, rw (answer, handle_message) refl, kept, same, refl)

identify-b :
    (g : Clients) (fd a : ℕ)
    → g.client_a ≡ some a
    → ((identify g fd (bytes "CLIENT_B")).actions ≡ sent a b_connected ∷ [])
      × ((identify g fd (bytes "CLIENT_B")).clients ≡ record g { client_b = some fd })
unfolding identify contains
identify-b g fd a e = (ground (arith, e), refl)

name-received : Server.received_text (bytes "CLIENT_B") ≡ some (bytes "CLIENT_B")
unfolding Server.received_text
name-received = refl

-- In a reachable state of the server in which client A is registered, let a connection name itself client
-- B, and let client A be in its main loop, with queries that find no city called CLIENT_B_CONNECTED. Then
-- the server tells client A of client B, and nobody else; client A takes this notice for the name of a city,
-- which it stores in place of the city it had, and answers with an error message for it; and the server
-- passes this message to the new client B, which shows it, and to client C if it is there.
pub notice_taken_for_city :
    {s : Server} (fd a : ℕ) (queries : Queries) (st : State)
    → Reach s
    → s.phase fd ≡ some Phase.identifying
    → s.clients.client_a ≡ some a
    → length st.city ≡ city_size
    → Fails (queries b_connected) 3
    → ((identify s.clients fd (bytes "CLIENT_B")).actions ≡ sent a b_connected ∷ [])
      × (ClientA.received_text b_connected ≡ some b_connected)
      × Stores queries st b_connected apology_for_b
      × (forward (identify s.clients fd (bytes "CLIENT_B")).clients a apology_for_b
          ≡ sent fd apology_for_b ∷ send_if s.clients.client_c apology_for_b)
      × (reply_text (some apology_for_b) ≡ some apology_for_b)
unfolding ClientA.received_text
notice_taken_for_city {s} fd a queries st r phase held size h =
    let (told, clients) = identify-b s.clients fd a held in
    let r' = later _ r (identifies fd (bytes "CLIENT_B") (bytes "CLIENT_B") phase name-received) in
    (
      told,
      received_whole b_connected b_connected-IsText (omega arith),
      notice-Stores queries st size h,
      forward-eq-deliveries role_a a apology_for_b r' (ap (λ g. g.client_a) clients ∙ held)
          ∙ ap (λ g. deliveries g (audience role_a) apology_for_b) clients
          ∙ ap (λ acts. sent fd apology_for_b ∷ acts)
              (append-nil (send_if s.clients.client_c apology_for_b)),
      reply_text-IsText apology_for_b apology-IsText apology-short,
    )
