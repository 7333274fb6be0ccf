-- ===== src/System/ReconnectTests.antt =====
-- Client A on descriptor 4 serves, and client B comes on descriptor 5.
use smart_home_weather_monit.Base.{◌≡◌, refl, none, some, [], ◌∷◌}
use smart_home_weather_monit.Text.{Bytes, bytes, contains}
use smart_home_weather_monit.Forecast.Query.{null}
use smart_home_weather_monit.Server
use smart_home_weather_monit.Server.{identify, forward, sent, send_if, b_connected}
use smart_home_weather_monit.Server.Threads.{
  Phase, Server, update, started, registered, accepts, identifies, Reach, start, later,
}
use smart_home_weather_monit.ClientA
use smart_home_weather_monit.ClientA.{Queries, initial_state}
use smart_home_weather_monit.ClientB.{reply_text}
use smart_home_weather_monit.System.City.{Stores}
use smart_home_weather_monit.System.Reconnect.{apology_for_b, notice_taken_for_city}

abbrev name_a : Bytes
name_a = bytes "CLIENT_A"

abbrev accepted_4 : Server
accepted_4 = record started { phase = update started.phase 4 (some Phase.identifying) }

abbrev with_a : Server
with_a = registered accepted_4 4 name_a

abbrev accepted_5 : Server
accepted_5 = record with_a { phase = update with_a.phase 5 (some Phase.identifying) }

name_a-received : Server.received_text name_a ≡ some name_a
unfolding Server.received_text
name_a-received = refl

free_5 : with_a.phase 5 ≡ none
unfolding identify contains
free_5 = refl

identifying_5 : accepted_5.phase 5 ≡ some Phase.identifying
unfolding identify contains
identifying_5 = refl

holds_a : accepted_5.clients.client_a ≡ some 4
unfolding identify contains
holds_a = refl

accepted_5-Reach : Reach accepted_5
accepted_5-Reach =
    later []
      (later _ (later [] start (accepts 4 refl)) (identifies 4 name_a name_a refl name_a-received))
      (accepts 5 free_5)

abbrev unknown_city : Queries
unknown_city city k = null

notice_taken_for_city_example :
    ((identify accepted_5.clients 5 (bytes "CLIENT_B")).actions ≡ sent 4 b_connected ∷ [])
    × (ClientA.received_text b_connected ≡ some b_connected)
    × Stores unknown_city initial_state b_connected apology_for_b
    × (forward (identify accepted_5.clients 5 (bytes "CLIENT_B")).clients 4 apology_for_b
        ≡ sent 5 apology_for_b ∷ send_if accepted_5.clients.client_c apology_for_b)
    × (reply_text (some apology_for_b) ≡ some apology_for_b)
notice_taken_for_city_example =
    notice_taken_for_city 5 4 unknown_city initial_state accepted_5-Reach identifying_5 holds_a refl
      (λ j l. refl)
