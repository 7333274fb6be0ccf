-- ===== src/Forecast/Resources.antt =====
-- What a query acquires, and when it releases it.
use smart_home_weather_monit.Base.{
  ◌≡◌, ◌≢◌, Bool, true, false, Option, none, some, List, [], ◌∷◌, arith, if◌then◌else◌,
}
use smart_home_weather_monit.Text.{Bytes}
use smart_home_weather_monit.Cjson.{Cjson}
use smart_home_weather_monit.Forecast.Query.{
  Network, Resource, socket, response_text, json_root, Effect, acquired, released, wrote, undefined,
  get_weather_data,
}

-- Which resources are held.
pub record Held : Type 0 where
  pub has_socket : Bool
  pub has_response : Bool
  pub has_root : Bool

abbrev pub nothing_held : Held
nothing_held = record { has_socket = false; has_response = false; has_root = false }

abbrev has : Held → Resource → Bool
has h socket = h.has_socket
has h response_text = h.has_response
has h json_root = h.has_root

abbrev put : Held → Resource → Bool → Held
put h socket b = record h { has_socket = b }
put h response_text b = record h { has_response = b }
put h json_root b = record h { has_root = b }

-- What is held after the effects; `none` if one is acquired twice or released when not held.
abbrev pub held_after : Held → List Effect → Option Held
held_after h [] = some h
held_after h (acquired r ∷ es) = if has h r then none else held_after (put h r true) es
held_after h (released r ∷ es) = if has h r then held_after (put h r false) es else none
held_after h (wrote t ∷ es) = held_after h es

-- On every path of a query that stays inside the response, whatever the network, the allocator and
-- cJSON answer, each resource is released exactly once after it was acquired: nothing leaks, and
-- nothing is released twice.
pub get_weather_data-released :
    (c : Cjson) (net : Network) (city : Bytes)
    → (get_weather_data c net city).result ≢ undefined
    → held_after nothing_held (get_weather_data c net city).effects ≡ some nothing_held
unfolding get_weather_data
get_weather_data-released c net city ok = ground arith
