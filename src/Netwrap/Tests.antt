-- ===== src/Netwrap/Tests.antt =====
-- A run of `Write` whose second call fails.
use smart_home_weather_monit.Base.{none, some, [], ◌∷◌, arith}
use smart_home_weather_monit.Text.{bytes}
use smart_home_weather_monit.Netwrap.{write_all}
use smart_home_weather_monit.Netwrap.Writing.{Writes, write_all-Writes}

write_all-Writes_example :
    Writes
      (some 1 ∷ none ∷ none ∷ [])
      (bytes "abc")
      3
      (write_all (some 1 ∷ none ∷ none ∷ []) (some (bytes "abc")))
write_all-Writes_example =
    write_all-Writes (some 1 ∷ none ∷ none ∷ []) (bytes "abc") ((omega arith), (omega arith), tt)
      (omega arith)
