-- ===== src/ClientB/Tests.antt =====
-- A dialogue of two lines.
use smart_home_weather_monit.Base.{List, ◌++◌, none, some, [], ◌∷◌, arith}
use smart_home_weather_monit.Text.{Bytes, bytes, c_text}
use smart_home_weather_monit.ClientB.{Round, client_main}
use smart_home_weather_monit.ClientB.Dialogue.{Dialogue, Says, client_main-Says}

abbrev city_line : Round
city_line = record { line = some (bytes "Paris" ++ b'\n' ∷ []); reply = none }

abbrev quit_line : Round
quit_line = record { line = some (bytes "quit"); reply = none }

client_main-Says_example :
    (lines : List Bytes) × (texts : List Bytes) × Dialogue (city_line ∷ quit_line ∷ []) lines texts
    × Says
        (bytes "CLIENT_B" ∷ lines)
        (c_text (bytes "CONNECTED") ∷ c_text (bytes "晴") ∷ texts)
        (client_main (bytes "CONNECTED") (bytes "晴") (city_line ∷ quit_line ∷ []))
client_main-Says_example =
    client_main-Says (bytes "CONNECTED") (bytes "晴") (city_line ∷ quit_line ∷ []) (omega arith)
      (omega arith) (λ msg e. cc, (λ msg e. cc, tt))
