-- ===== src/System/Dialogue.antt =====
-- A dialogue: client B asks for one city after the other.
use smart_home_weather_monit.Base.{
  ℕ, ◌≡◌, refl, ap, ◌∙◌, true, false, some, List, [], ◌∷◌, ◌++◌, arith, length, map, All,
  append-nil,
}
use smart_home_weather_monit.Text.{Bytes, bytes, str_eq}
use smart_home_weather_monit.Text.Buffers.{IsText, IsLine}
use smart_home_weather_monit.Forecast.City.{city_size}
use smart_home_weather_monit.Server.{sent, forward, send_if, Action}
use smart_home_weather_monit.Server
use smart_home_weather_monit.Server.Threads.{Server, Reach}
use smart_home_weather_monit.Server.Invariant.{role_a, role_b}
use smart_home_weather_monit.Server.Routing.{forward-eq-deliveries}
use smart_home_weather_monit.ClientA
use smart_home_weather_monit.ClientA.{State, Queries, Turn, serve}
use smart_home_weather_monit.ClientB
use smart_home_weather_monit.ClientB.{Round, first_line, reply_text, talk}
use smart_home_weather_monit.System.City.{
  IsAnswered, handle_message-city, received_whole, received_text-IsText, reply_text-IsText,
}

-- One question of the dialogue: the city, what the queries for it return, the k-th being the first that
-- succeeds, and the report.
pub record Exchange : Type 0 where
  pub city : Bytes
  pub queries : Queries
  pub k : ℕ
  pub report : Bytes

-- The city is one line and is answered; "quit" would end the dialogue.
pub record IsAsked (x : Exchange) : Type 0 where
  pub answered : IsAnswered x.queries x.city x.report x.k
  pub line : IsLine x.city
  pub stays : str_eq x.city (bytes "quit") ≡ false

-- What the user types and client B receives.
abbrev pub round_of : Exchange → Round
round_of x = record { line = some (x.city ++ b'\n' ∷ []); reply = some x.report }

-- What client A receives and finds.
abbrev pub turn_of : Exchange → Turn
turn_of x = record { interrupted = false; message = some x.city; queries = x.queries }

-- What client B sends and shows.
abbrev pub dialogue : List Exchange → List ClientB.Event
dialogue [] = []
dialogue (x ∷ xs) = ClientB.sent x.city ∷ ClientB.shown x.report ∷ dialogue xs

first_line-append : (t : Bytes) → IsText t → IsLine t → first_line (t ++ b'\n' ∷ []) ≡ t
unfolding first_line
first_line-append [] k h = refl
first_line-append (c ∷ t) k h = ground (arith, k.0, h.0, first_line-append t k.1 h.1)

pub talk-dialogue :
    (xs : List Exchange) → All IsAsked xs → talk (map round_of xs) ≡ some (dialogue xs)
unfolding talk
talk-dialogue [] h = refl
talk-dialogue (x ∷ xs) h =
    rw (first_line-append x.city h.0.answered.text h.0.line, talk)
      (rw (h.0.stays, talk)
        (rw (reply_text-IsText x.report h.0.answered.answer h.0.answered.answer_short, talk)
          (rw (talk-dialogue xs h.1, talk)
            (ap (λ t. some (ClientB.sent t ∷ ClientB.shown x.report ∷ dialogue xs))
              (first_line-append x.city h.0.answered.text h.0.line)))))

received_by_a : (x : Exchange) → IsAsked x → ClientA.received_text x.city ≡ some x.city
unfolding ClientA.received_text
received_by_a x h = let s = h.answered.short in received_whole x.city h.answered.text (omega arith)

pub serve-reports :
    (xs : List Exchange) (st : State)
    → st.running ≡ true
    → length st.city ≡ city_size
    → All IsAsked xs
    → (last : State) × (serve (map turn_of xs) st ≡ some (last, map (λ x. x.report) xs))
unfolding serve
serve-reports [] st on size h = (st, refl)
serve-reports (x ∷ xs) st on size h =
    let (next, e, _, size', run) =
      handle_message-city x.queries st x.city x.report x.k size h.0.answered in
    let (last, f) = serve-reports xs next (run ∙ on) size' h.1 in
    (last, ground (arith, on, received_by_a x h.0, e, f))

-- The server passes a city on to client A alone, and its report to client B, and to client C if it is
-- there; and what it passes on is what it was sent.
module _ (s : Server) (a b : ℕ) where
  abbrev pub Passes : Exchange → Type 0
  Passes x =
      (Server.received_text x.city ≡ some x.city)
      × (forward s.clients b x.city ≡ sent a x.city ∷ [])
      × (Server.received_text x.report ≡ some x.report)
      × (forward s.clients a x.report ≡ sent b x.report ∷ send_if s.clients.client_c x.report)

  exchange-Passes :
      Reach s
      → s.clients.client_a ≡ some a
      → s.clients.client_b ≡ some b
      → (x : Exchange) → IsAsked x
      → Passes x
  exchange-Passes r ea eb x h = (
    received_text-IsText x.city h.answered.text (let l = h.answered.short in omega arith),
    ground (arith, forward-eq-deliveries role_b b x.city r eb),
    received_text-IsText x.report h.answered.answer h.answered.answer_short,
    ground (
      arith,
      forward-eq-deliveries role_a a x.report r ea,
      append-nil (send_if s.clients.client_c x.report),
    ),
  )

  pub dialogue-Passes :
      Reach s
      → s.clients.client_a ≡ some a
      → s.clients.client_b ≡ some b
      → (xs : List Exchange) → All IsAsked xs
      → All Passes xs
  dialogue-Passes r ea eb [] h = tt
  dialogue-Passes r ea eb (x ∷ xs) h =
      (exchange-Passes r ea eb x h.0, dialogue-Passes r ea eb xs h.1)
