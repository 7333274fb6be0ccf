-- ===== src/System/City.antt =====
-- A city name on its way from client B to client A, and the report on its way back.
use smart_home_weather_monit.Base.{
  ℕ, ◌≤◌, ◌<◌, ◌≡◌, ◌≢◌, refl, ap, ◌∙◌, false, some, [], length, take_all,
}
use smart_home_weather_monit.Text.{Bytes, bytes, contains, received, text_of}
use smart_home_weather_monit.Text.Buffers.{IsText, c_text_lem, text_of-received}
use smart_home_weather_monit.Forecast.City.{
  city_size, set_current_city, get_current_city, get-set_current_city,
}
use smart_home_weather_monit.Forecast.Query.{null, weather}
use smart_home_weather_monit.Server
use smart_home_weather_monit.Server.{Clients, sent, forward, send_if}
use smart_home_weather_monit.ClientA.{State, Queries, handle_message}
use smart_home_weather_monit.ClientA.Retry.{send_weather_answer}
use smart_home_weather_monit.ClientB.{reply_text}

-- What a program sees of a text that it receives into 1024 bytes.
pub received_whole : (t : Bytes) → IsText t → length t < 1024 → text_of (received 1024 t) ≡ some t
received_whole t h l = text_of-received 1024 t l ∙ ap some (c_text_lem t h)

pub received_text-IsText :
    (t : Bytes) → IsText t → length t < 1024 → Server.received_text t ≡ some t
unfolding Server.received_text
received_text-IsText t h l = received_whole t h l

pub reply_text-IsText : (t : Bytes) → IsText t → length t < 1024 → reply_text (some t) ≡ some t
unfolding reply_text
reply_text-IsText t h l = received_whole t h l

-- A message with a new city: the state that follows, in which the city is stored whole.
abbrev pub Stores : Queries → State → Bytes → Bytes → Type 0
Stores queries st city t =
    (next : State) × (handle_message queries st city ≡ some (next, t))
    × (get_current_city next.city ≡ some city)
    × (length next.city ≡ city_size)
    × (next.running ≡ st.running)

-- A city name that client A takes for one, and its first query that succeeds.
pub record IsAnswered (queries : Queries) (city t : Bytes) (k : ℕ) : Type 0 where
  pub text : IsText city
  pub not_empty : city ≢ []
  pub short : length city ≤ 49
  pub no_notice : contains city (bytes "CLIENT_C_CONNECTED") ≡ false
  pub in_time : k < 3
  pub found : queries city k ≡ weather t
  pub before : (j : ℕ) → j < k → queries city j ≡ null
  pub answer : IsText t
  pub answer_short : length t < 1024

pub handle_message-city :
    (queries : Queries) (st : State) (city t : Bytes) (k : ℕ)
    → length st.city ≡ city_size
    → IsAnswered queries city t k
    → Stores queries st city t
unfolding handle_message
handle_message-city queries st city t k size v =
    let next : State = record st { city = set_current_city st.city (some city) } in
    let (kept, same) = get-set_current_city st.city city size v.text v.not_empty in
    let stored = kept ∙ ap some (take_all 49 city v.short) in
    (
      next,
      rw (v.no_notice, handle_message)
          (rw
            (
              send_weather_answer queries next.city city t k stored v.in_time v.found v.before,
              handle_message,
            )
            refl),
      stored,
      same,
      refl,
    )
