-- ===== src/System/SizesTests.antt =====
-- A session of client A whose queries are answered.
use smart_home_weather_monit.Base.{
  ℕ, ◌≡◌, ◌≢◌, refl, sym, ◌∙◌, true, false, some, List, [], ◌∷◌, arith, All,
}
use smart_home_weather_monit.Text.{Bytes, bytes}
use smart_home_weather_monit.Forecast.Query.{get_weather_data, undefined}
use smart_home_weather_monit.Forecast.Sample.{cjson, network, sunny}
use smart_home_weather_monit.Server.{connected, b_connected}
use smart_home_weather_monit.ClientA.{Turn, Session, Queries, client_main}
use smart_home_weather_monit.ClientA.Main.{IsDefinedSession}
use smart_home_weather_monit.System.Sizes.{AsksForecast, Fits, client_main-Fits}

abbrev queries : Queries
queries city k = (get_weather_data cjson network city).result

abbrev asks : Turn
asks = record { interrupted = false; message = some (bytes "上海"); queries = queries }

abbrev session : Session
session = record {
  has_socket = true;
  address_valid = true;
  connects = true;
  confirmation = connected;
  waiting = λ j. record { interrupted = false; message = some b_connected; queries = queries };
  first_query = λ city. queries city 0;
  turns = asks ∷ [];
}

defined : (city : Bytes) → (get_weather_data cjson network city).result ≢ undefined
defined city e = let f = sym (sunny city) ∙ e in cc

session-IsDefinedSession : IsDefinedSession session
session-IsDefinedSession = record {
  confirmation = omega arith;
  waiting = λ j msg e. ground arith;
  first_query = λ city. defined city;
  turns = (((λ city i. defined city), (λ msg e. ground arith)), tt);
}

session-AsksForecast : AsksForecast cjson session
session-AsksForecast = record {
  first_net = λ city. network;
  first = λ city. refl;
  turns = (((λ city k. network), (λ city k. refl)), tt);
}

client_main-Fits_example :
    (status : ℕ) × (sent : List Bytes) × (client_main session ≡ some (status, sent)) × All Fits sent
client_main-Fits_example =
    client_main-Fits cjson session session-IsDefinedSession session-AsksForecast
