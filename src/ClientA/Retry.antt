-- ===== src/ClientA/Retry.antt =====
-- How often the weather service is asked, and what is sent.
use smart_home_weather_monit.Base.{
  ℕ, zero, suc, ◌+◌, ◌≤◌, ◌<◌, ◌≡◌, ◌⊎◌, refl, Option, none, some, arith, inl, inr, length,
  length-take-le, ◌==◌, Bool-cases, ==_iff,
}
use smart_home_weather_monit.Text.{Bytes}
use smart_home_weather_monit.Forecast.City.{get_current_city}
use smart_home_weather_monit.Forecast.Query.{Result, null, weather, undefined}
use smart_home_weather_monit.ClientA.{
  Queries, retry, error_message, error_text, send_weather_to_server,
}

retry_first :
    (query : ℕ → Result) (left i k : ℕ) (t : Bytes)
    → i ≤ k
    → k < i + left
    → query k ≡ weather t
    → ((j : ℕ) → i ≤ j → j < k → query j ≡ null)
    → retry query left i ≡ weather t
unfolding retry
retry_first query zero i k t lo hi found before = absurd (omega arith)
retry_first query (suc left) i k t lo hi found before = elim (Bool-cases (i == k)) [
  | inl e ↦ let here : i ≡ k = (==_iff i k).0 e in ground (arith, here)
  | inr ne ↦ ground (
    arith,
    before i,
    retry_first query left (i + 1) k t (ground arith) (ground arith) found
        (λ j a b. before j (omega arith) b),
  )
]

retry_none :
    (query : ℕ → Result) (left i : ℕ)
    → ((j : ℕ) → i ≤ j → j < i + left → query j ≡ null)
    → retry query left i ≡ null
unfolding retry
retry_none query zero i h = refl
retry_none query (suc left) i h =
    ground (arith, h i, retry_none query left (i + 1) (λ j a b. h j (omega arith) (omega arith)))

-- One of the three attempts for the current city returns a report, and those before it fail.
pub send_weather_answer :
    (queries : Queries) (buffer city t : Bytes) (k : ℕ)
    → get_current_city buffer ≡ some city
    → k < 3
    → queries city k ≡ weather t
    → ((j : ℕ) → j < k → queries city j ≡ null)
    → send_weather_to_server queries buffer ≡ some t
unfolding send_weather_to_server
send_weather_answer queries buffer city t k e lt found before = ground (
  arith,
  retry_first (queries city) 3 0 k t (omega arith) (omega arith) found (λ j a b. before j b),
)

-- All attempts before the k-th have failed.
abbrev pub Fails : (ℕ → Result) → ℕ → Type 0
Fails query k = (j : ℕ) → j < k → query j ≡ null

-- What is to be sent for a city, whose queries return what they do.
pub data Answers (query : ℕ → Result) (city : Bytes) : Option Bytes → Type 0 where
  report :
      (k : ℕ) (t : Bytes) (sent : Option Bytes)
      → k < 3
      → Fails query k
      → query k ≡ weather t
      → sent ≡ some t
      → Answers query city sent
  apology :
      (sent : Option Bytes)
      → Fails query 3
      → sent ≡ some (error_message city)
      → length (error_message city) ≤ 255
      → Answers query city sent
  crash :
      (k : ℕ) (sent : Option Bytes)
      → k < 3
      → Fails query k
      → query k ≡ undefined
      → sent ≡ none
      → Answers query city sent

-- What is sent of the outcome of the attempts.
abbrev message_of : Bytes → Result → Option Bytes
message_of city (weather t) = some t
message_of city null = some (error_message city)
message_of city undefined = none

error_message-short : (city : Bytes) → length (error_message city) ≤ 255
unfolding error_message
error_message-short city = length-take-le 255 (error_text city)

one_more : (query : ℕ → Result) (i : ℕ) → Fails query i → query i ≡ null → Fails query (i + 1)
one_more query i h e j l = elim (Bool-cases (j == i)) [
  | inl same ↦ let here : j ≡ i = (==_iff j i).0 same in ground (arith, here)
  | inr other ↦ h j (ground arith)
]

Result-cases : (r : Result) → (r ≡ undefined) ⊎ ((r ≡ null) ⊎ ((t : Bytes) × (r ≡ weather t)))
Result-cases undefined = inl refl
Result-cases null = inr (inl refl)
Result-cases (weather t) = inr (inr (t, refl))

sends :
    (queries : Queries) (buffer city : Bytes)
    → get_current_city buffer ≡ some city
    → send_weather_to_server queries buffer ≡ message_of city (retry (queries city) 3 0)
unfolding send_weather_to_server
sends queries buffer city e = elim (Result-cases (retry (queries city) 3 0)) [
  | inl u ↦ ground (arith, e, u)
  | inr (inl n) ↦ ground (arith, e, n)
  | inr (inr (t, w)) ↦ ground (arith, e, w)
]

retry-Answers :
    (query : ℕ → Result) (city : Bytes) (left i : ℕ)
    → i + left ≡ 3
    → Fails query i
    → Answers query city (message_of city (retry query left i))
unfolding retry
retry-Answers query city zero i e h =
    apology _ (λ j l. h j (omega arith)) refl (error_message-short city)
retry-Answers query city (suc left) i e h = elim (Result-cases (query i)) [
  | inl u ↦ rw (u, retry) (crash i _ (omega arith) h u refl)
  | inr (inl n) ↦
      rw (n, retry) (retry-Answers query city left (i + 1) (omega arith) (one_more query i h n))
  | inr (inr (t, w)) ↦ rw (w, retry) (report i t _ (omega arith) h w refl)
]

-- Whatever the queries return, three attempts at most decide what is sent for the current city: the report
-- of the first attempt that returns one, all before it having failed; or, if all three fail, a message of
-- at most 255 bytes that names the city; or the behaviour is undefined because an attempt's is.
pub send_weather-Answers :
    (queries : Queries) (buffer city : Bytes)
    → get_current_city buffer ≡ some city
    → Answers (queries city) city (send_weather_to_server queries buffer)
unfolding send_weather_to_server
send_weather-Answers queries buffer city e =
    rw (sends queries buffer city e)
      (retry-Answers (queries city) city 3 0 refl (λ j l. absurd (omega arith)))
