-- ===== src/ClientA/Tests.antt =====
-- Runs of client A: the queries answer at the second attempt, or never.
use smart_home_weather_monit.Base.{
  ◌++◌, Option, ℕ, zero, suc, ◌≡◌, refl, true, false, List, none, some, [], ◌∷◌, arith,
}
use smart_home_weather_monit.Text.{Bytes, bytes, text_of, contains}
use smart_home_weather_monit.Forecast.City.{get_current_city, initial_city}
use smart_home_weather_monit.Forecast.Query.{null, weather}
use smart_home_weather_monit.Server
use smart_home_weather_monit.Server.{identify, sent, Clients, b_connected, connected}
use smart_home_weather_monit.ClientA.{Queries, Turn, Session, send_weather_to_server, client_main}
use smart_home_weather_monit.ClientA.Retry.{Answers, send_weather-Answers}
use smart_home_weather_monit.ClientA.Serving.{IsDefined}
use smart_home_weather_monit.ClientA.Main.{IsDefinedSession, Ends, client_main_total}
use smart_home_weather_monit.ClientA.Handshake.{messages_to, stream_of, late_client_a}

abbrev second_time : Queries
second_time city zero = null
second_time city (suc i) = weather (bytes "晴")

abbrev never : Queries
never city i = null

initial_city-text : get_current_city initial_city ≡ some (bytes "广州")
unfolding get_current_city text_of
initial_city-text = refl

send_weather-Answers_example :
    Answers
      (second_time (bytes "广州"))
      (bytes "广州")
      (send_weather_to_server second_time initial_city)
send_weather-Answers_example =
    send_weather-Answers second_time initial_city (bytes "广州") initial_city-text

abbrev asks : Turn
asks = record { interrupted = false; message = some (bytes "上海"); queries = never }

asks-IsDefined : IsDefined asks
asks-IsDefined = (λ city i e. cc, λ msg e. ground arith)

-- Client B comes at once, and asks for one city.
abbrev prompt : Session
prompt = record {
  has_socket = true;
  address_valid = true;
  connects = true;
  confirmation = connected;
  waiting = λ j. record { interrupted = false; message = some b_connected; queries = never };
  first_query = λ city. weather (bytes "晴");
  turns = asks ∷ [];
}

prompt-IsDefinedSession : IsDefinedSession prompt
prompt-IsDefinedSession = record {
  confirmation = omega arith;
  waiting = λ j msg e. ground arith;
  first_query = λ city e. cc;
  turns = (asks-IsDefined, tt);
}

client_main_total_example :
    (status : ℕ) × (sent : List Bytes) × (client_main prompt ≡ some (status, sent))
    × Ends prompt status sent
client_main_total_example = client_main_total prompt prompt-IsDefinedSession

abbrev only_b : Clients
only_b = record { client_a = none; client_b = some 5; client_c = none }

abbrev first_only : ℕ → Option Bytes
first_only zero = some (bytes "B_CONNECTED")
first_only (suc zero) = none
first_only (suc (suc zero)) = some connected
first_only (suc (suc (suc j))) = none

abbrev late : Session
late = record {
  has_socket = true;
  address_valid = true;
  connects = true;
  confirmation = bytes "CLIENT_";
  waiting = λ j. record { interrupted = false; message = first_only j; queries = never };
  first_query = λ city. null;
  turns = [];
}

late-stream :
    stream_of (
      messages_to 4
        ((identify only_b 4 (bytes "CLIENT_A")).actions ++ sent 4 Server.connected ∷ []))
    ≡ late.confirmation ++ bytes "B_CONNECTEDCONNECTED"
unfolding identify contains
late-stream = refl

-- The stream comes in three pieces, cut inside the words.
late_client_a_example : client_main late ≡ some (0, bytes "CLIENT_A" ∷ [])
late_client_a_example =
    late_client_a only_b 4 5 late (bytes "B_CONNECTEDCONNECTED") refl late-stream (λ e. cc)
      (bytes "CONNECTED", refl, ([], refl, tt)) refl refl refl
