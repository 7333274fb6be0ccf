-- ===== src/System/EchoTests.antt =====
-- The server sends a command to client C.
use smart_home_weather_monit.Base.{◌≡◌, refl, true, none, some, [], ◌∷◌, ◌++◌, arith}
use smart_home_weather_monit.Text.{Bytes, bytes, contains}
use smart_home_weather_monit.Server
use smart_home_weather_monit.Server.{identify, forward, send_if, b_connected}
use smart_home_weather_monit.Server.Threads.{
  Phase, Server, update, registered, accepts, identifies, Reach, start, later,
}
use smart_home_weather_monit.ClientB.{reply_text}
use smart_home_weather_monit.ClientC.{
  Client, initial_client, weather_fifo, command_fifo, led_on, connected, client_c_is_connected,
  fifo_written, emit, unknown,
}
use smart_home_weather_monit.ClientC.Commands.{parse_command_type}
use smart_home_weather_monit.ClientC.Messages.{Fifos, is_confirmation, parse_and_handle_message}
use smart_home_weather_monit.ClientC.Thread.{message_text}
use smart_home_weather_monit.Gateway.{Gateway, initial_gateway}
use smart_home_weather_monit.ClientC
use smart_home_weather_monit.System.Echo.{IsCommand, command_returned}
use smart_home_weather_monit.Gateway.Delivery.{IsOnline}
use smart_home_weather_monit.Gateway.Listeners.{got, command_loop}
use smart_home_weather_monit.System.DialogueTests.{name_b, with_b, name_b-received}

abbrev open_fifos : Fifos
open_fifos = record { found = λ f. true; opened = λ f. true }

abbrev online : Client
online = record initial_client { tcp_socket = some 7; tcp_running = true }

-- Client B on descriptor 5 and client C on descriptor 6.
abbrev name_c : Bytes
name_c = bytes "CLIENT_C"

abbrev accepted_6 : Server
accepted_6 = record with_b { phase = update with_b.phase 6 (some Phase.identifying) }

abbrev with_c : Server
with_c = registered accepted_6 6 name_c

name_c-received : Server.received_text name_c ≡ some name_c
unfolding Server.received_text
name_c-received = refl

free_6 : with_b.phase 6 ≡ none
unfolding identify contains
free_6 = refl

identifying_6 : accepted_6.phase 6 ≡ some Phase.identifying
unfolding identify contains
identifying_6 = refl

with_c-Reach : Reach with_c
with_c-Reach =
    later _
      (later []
        (later _ (later [] start (accepts 5 refl))
          (identifies 5 name_b name_b refl name_b-received))
        (accepts 6 free_6))
      (identifies 6 name_c name_c identifying_6 name_c-received)

c_holds : with_c.clients.client_c ≡ some 6
unfolding identify contains
c_holds = refl

b_stays : with_c.clients.client_b ≡ some 5
unfolding identify contains
b_stays = refl

abbrev turn_on : Bytes
turn_on = bytes "LED_ON"

turn_on-IsCommand : IsCommand turn_on led_on
unfolding parse_command_type smart_home_weather_monit.ClientC.Commands.names is_confirmation
    contains
turn_on-IsCommand = record {
  text = omega arith;
  line = omega arith;
  not_empty = λ e. cc;
  short = omega arith;
  no_confirmation = refl;
  known = λ e. cc;
  parsed = refl;
}

abbrev gateway : Gateway
gateway = record initial_gateway {
  client_c_initialized = true;
  client = record online { state = connected };
}

gateway-IsOnline : IsOnline gateway 7
unfolding client_c_is_connected
gateway-IsOnline = record { ready = refl; online = refl; socket = refl }

command_returned_example :
    ((c : Client) × (parse_and_handle_message open_fifos gateway.client
          (some (message_text turn_on))
        ≡ some c)
      × (command_loop (record gateway { client = c }) (got (turn_on ++ b'\n' ∷ []) true ∷ [])
          ≡ some (record gateway {
            client =
                emit
                  (emit gateway.client (fifo_written command_fifo turn_on))
                  (ClientC.sent 7 turn_on);
          })))
    × (Server.received_text turn_on ≡ some turn_on)
    × (forward with_c.clients 6 turn_on ≡ Server.sent 5 turn_on ∷ [])
    × (reply_text (some turn_on) ≡ some turn_on)
command_returned_example =
    command_returned turn_on-IsCommand 6 5 7 open_fifos gateway with_c-Reach c_holds b_stays refl
      refl refl gateway-IsOnline
