-- ===== src/Forecast/City.antt =====
-- `current_city`, a buffer of 50 bytes, and its setter and getter.
use smart_home_weather_monit.Base.{
  ℕ, ◌-◌, ◌≡◌, ◌≢◌, refl, ap, ◌∙◌, Option, none, some, [], ◌∷◌, ◌++◌, arith, ltb, if◌then◌else◌,
  length, replicate, take, drop, set, length-append, length-drop, singleton_of_length,
}
use smart_home_weather_monit.Text.{Bytes, bytes, received, text_of, strncpy}
use smart_home_weather_monit.Text.Buffers.{
  set_last, IsText, length-received, text_of-received-append,
}

abbrev pub city_size : ℕ
city_size = 50

-- `char current_city[50] = "广州"`
abbrev pub initial_city : Bytes
initial_city = bytes "广州" ++ replicate 44 0

-- The new content of the buffer; `none` is the NULL pointer.
unfoldable pub set_current_city : Bytes → Option Bytes → Bytes
unfolding strncpy
set_current_city buffer none = buffer
set_current_city buffer (some city) =
    if ltb 0 (length city)
    then set (strncpy (city_size - 1) buffer city) (city_size - 1) 0
    else buffer

unfoldable pub get_current_city : Bytes → Option Bytes
unfolding text_of
get_current_city buffer = text_of buffer

stored :
    (buffer city : Bytes)
    → length buffer ≡ 50
    → set (strncpy 49 buffer city) 49 0 ≡ received 49 city ++ 0 ∷ []
unfolding strncpy
stored buffer city h =
    let (x, e) = singleton_of_length (drop 49 buffer) (omega (arith, length-drop 49 buffer)) in
    ap (λ t. set (received 49 city ++ t) 49 0) e
    ∙ set_last 49 (received 49 city) x 0 (length-received 49 city)

set_current_city_lem :
    (buffer city : Bytes)
    → length buffer ≡ 50
    → city ≢ []
    → set_current_city buffer (some city) ≡ received 49 city ++ 0 ∷ []
unfolding set_current_city
set_current_city_lem buffer [] h ne = absurd (ne refl)
set_current_city_lem buffer (c ∷ cs) h ne = ground (arith, stored buffer (c ∷ cs) h)

-- After a city that is not empty has been set, the current city is its first 49 bytes, and the buffer
-- still has 50.
pub get-set_current_city :
    (buffer city : Bytes)
    → length buffer ≡ city_size
    → IsText city
    → city ≢ []
    → (get_current_city (set_current_city buffer (some city)) ≡ some (take 49 city))
      × (length (set_current_city buffer (some city)) ≡ city_size)
unfolding get_current_city
get-set_current_city buffer city h t ne = rw (set_current_city_lem buffer city h ne) (
  text_of-received-append 49 city [] t,
  omega (arith, length-append (received 49 city) (0 ∷ []), length-received 49 city),
)
