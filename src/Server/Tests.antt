-- ===== src/Server/Tests.antt =====
-- Runs of the server: client B, then client A, on descriptors 5 and 4.
use smart_home_weather_monit.Base.{
  none, ◌++◌, ◌≡◌, ◌⊎◌, inl, refl, true, false, List, some, [], ◌∷◌, arith, All, map, is_some, ◌&&◌,
}
use smart_home_weather_monit.Text.{Bytes, bytes, contains}
use smart_home_weather_monit.Server.{
  Clients, no_clients, sent, identify, b_connected, connected, received_text,
}
use smart_home_weather_monit.Server.Threads.{
  Phase, Server, update, started, registered, accepts, identifies, confirms, Reach, start, later,
}
use smart_home_weather_monit.Server.Safety.{IsSafe, Reach-IsSafe}
use smart_home_weather_monit.Server.Invariant.{role_b, holder, Inv, Reach-Inv}
use smart_home_weather_monit.Server.Overtaking.{texts_for, report_overtakes}
use smart_home_weather_monit.Server.Broker.{Message, Serves, events, history, Reach-Serves}
use smart_home_weather_monit.Server.Routing.{Routes, forward-Routes}
use smart_home_weather_monit.Server.Identity.{Has, identify_tells}
use smart_home_weather_monit.Server.Startup.{
  Accepted, Setup, accepted, accept_failed, server_main, server_main-descriptors, accepted_fds,
  served_fd, close_of, waits, failed,
}

abbrev name_a : Bytes
name_a = bytes "CLIENT_A"

abbrev name_b : Bytes
name_b = bytes "CLIENT_B"

received-name_b : received_text name_b ≡ some name_b
unfolding received_text
received-name_b = refl

received-name_a : received_text name_a ≡ some name_a
unfolding received_text
received-name_a = refl

-- Descriptor 5 is accepted, and registers as client B.
abbrev accepted_5 : Server
accepted_5 = record started { phase = update started.phase 5 (some Phase.identifying) }

abbrev with_b : Server
with_b = registered accepted_5 5 name_b

abbrev serving_b : Server
serving_b = record with_b { phase = update with_b.phase 5 (some Phase.serving) }

accepted_5-Reach : Reach accepted_5
accepted_5-Reach = later [] start (accepts 5 refl)

with_b-Reach : Reach with_b
with_b-Reach = later _ accepted_5-Reach (identifies 5 name_b name_b refl received-name_b)

with_b-phase : with_b.phase 5 ≡ some Phase.confirming
unfolding identify contains
with_b-phase = refl

serving_b-Reach : Reach serving_b
serving_b-Reach = later _ with_b-Reach (confirms 5 with_b-phase)

Reach-Inv_example : Inv serving_b
Reach-Inv_example = Reach-Inv serving_b-Reach

Reach-IsSafe_example : All (IsSafe with_b) (identify no_clients 5 name_b).actions
Reach-IsSafe_example =
    Reach-IsSafe (identify no_clients 5 name_b).actions accepted_5-Reach
      (identifies 5 name_b name_b refl received-name_b)

forward-Routes_example : Routes serving_b 5 (bytes "北京")
forward-Routes_example = forward-Routes 5 (bytes "北京") serving_b-Reach

abbrev only_b : Clients
only_b = record no_clients { client_b = some 5 }

only_b-a : (identify only_b 4 name_a).clients.client_a ≡ some 4
unfolding identify contains
only_b-a = refl

only_b-b : (identify only_b 4 name_a).clients.client_b ≡ some 5
unfolding identify contains
only_b-b = refl

identify_tells_example : Has (sent 4 b_connected) (identify only_b 4 name_a).actions
identify_tells_example =
    identify_tells only_b 4 name_a role_b 4 5 (λ e. ground arith) only_b-a only_b-b
      (inl (λ e. ground arith))

abbrev all_set_up : Setup
all_set_up = record { server_fd = some 3; bound = true; listening = true }

abbrev two_rounds : List Accepted
two_rounds = accepted 4 true ∷ accept_failed ∷ accepted 5 false ∷ []

server_main-descriptors_example :
    ((is_some all_set_up.server_fd && all_set_up.bound && all_set_up.listening ≡ true)
      × ((server_main all_set_up two_rounds).1 ≡ waits)
      × (map served_fd (server_main all_set_up two_rounds).0 ≡ accepted_fds two_rounds))
    ⊎ ((is_some all_set_up.server_fd && all_set_up.bound && all_set_up.listening ≡ false)
        × (server_main all_set_up two_rounds ≡ (close_of all_set_up.server_fd, failed)))
server_main-descriptors_example = server_main-descriptors all_set_up two_rounds

Reach-Serves_example :
    Serves (events serving_b-Reach) (history serving_b-Reach) (holder serving_b.clients)
Reach-Serves_example = Reach-Serves serving_b-Reach

-- Client A alone, served on descriptor 4.
abbrev accepted_4 : Server
accepted_4 = record started { phase = update started.phase 4 (some Phase.identifying) }

abbrev with_a : Server
with_a = registered accepted_4 4 name_a

abbrev serving_a : Server
serving_a = record with_a { phase = update with_a.phase 4 (some Phase.serving) }

with_a-phase : with_a.phase 4 ≡ some Phase.confirming
unfolding identify contains
with_a-phase = refl

serving_a-Reach : Reach serving_a
serving_a-Reach =
    later _
      (later _ (later [] start (accepts 4 refl)) (identifies 4 name_a name_a refl received-name_a))
      (confirms 4 with_a-phase)

serving_a-holds : serving_a.clients.client_a ≡ some 4
unfolding identify contains
serving_a-holds = refl

serving_a-free : serving_a.phase 5 ≡ none
unfolding identify contains
serving_a-free = refl

sunny-received : received_text (bytes "晴") ≡ some (bytes "晴")
unfolding received_text
sunny-received = refl

report_overtakes_example :
    (last : Server) × (t : Reach last) × (new : List Message) × (history t
      ≡ history serving_a-Reach ++ new)
    × (texts_for 5 new ≡ bytes "晴" ∷ connected ∷ [])
    × (last.clients.client_b ≡ some 5)
    × (last.phase 5 ≡ some Phase.serving)
report_overtakes_example =
    report_overtakes serving_a-Reach 4 5 (bytes "晴") serving_a-holds refl serving_a-free
      sunny-received
