-- ===== src/ClientA/Waiting.antt =====
-- The wait for client B when no message of its rounds names it.
use smart_home_weather_monit.Base.{
  ℕ, zero, suc, ◌+◌, ◌≡◌, refl, ◌∙◌, Bool, true, false, Option, none, some, [], ◌∷◌, arith, inl,
  inr, Bool-cases, ◌⊎◌,
}
use smart_home_weather_monit.Text.{Bytes, bytes, contains}
use smart_home_weather_monit.Server.{b_connected}
use smart_home_weather_monit.ClientA.{
  State, Turn, Session, received_text, signal_handler, wait_message, wait_received, wait_for_b,
  initial_state, run_connected, client_main,
}

-- No text is received, or one that does not tell of client B.
abbrev pub WithoutB : Option Bytes → Type 0
WithoutB none = Unit
WithoutB (some msg) =
    (text : Bytes) × (received_text msg ≡ some text)
    × (contains text (bytes "CLIENT_B_CONNECTED") ≡ false)

received-WithoutB :
    (s : State) (m : Option Bytes)
    → WithoutB m
    → (next : State) × (wait_received s m ≡ some (true, next))
      × (next.client_b_connected ≡ s.client_b_connected)
unfolding wait_received
received-WithoutB s none h = (s, refl, refl)
received-WithoutB s (some msg) (text, e, nb) = ((wait_message s text).1, ground arith, ground arith)

pub signal_handler-client_b :
    (b : Bool) (s : State) → (signal_handler b s).client_b_connected ≡ s.client_b_connected
signal_handler-client_b true s = refl
signal_handler-client_b false s = refl

-- No message of so many rounds, from the i-th on, tells of client B.
abbrev pub RoundsWithoutB : (ℕ → Turn) → (left i : ℕ) → Type 0
RoundsWithoutB turns zero i = Unit
RoundsWithoutB turns (suc left) i = WithoutB (turns i).message × RoundsWithoutB turns left (i + 1)

pub wait-WithoutB :
    (turns : ℕ → Turn) (left i : ℕ) (s : State)
    → RoundsWithoutB turns left i
    → (last : State) × (wait_for_b turns left i s ≡ some last)
      × (last.client_b_connected ≡ s.client_b_connected)
unfolding wait_for_b
wait-WithoutB turns zero i s h = (s, refl, refl)
wait-WithoutB turns (suc left) i s h =
    let s' = signal_handler (turns i).interrupted s in
    let (next, e, same) = received-WithoutB s' (turns i).message h.0 in
    let (last, f, same') = wait-WithoutB turns left (i + 1) next h.1 in
    elim (Bool-cases s'.running) [
      | inl on ↦
          (last, ground arith, same' ∙ same ∙ signal_handler-client_b (turns i).interrupted s)
      | inr off ↦ (s', ground arith, signal_handler-client_b (turns i).interrupted s)
    ]

-- Within so many rounds client B is told of, with no interrupt before.
abbrev pub UntilB : (ℕ → Turn) → (left i : ℕ) → Type 0
UntilB turns zero i = ⊥
UntilB turns (suc left) i =
    ((turns i).interrupted ≡ false)
    × (((turns i).message ≡ some b_connected)
        ⊎ (WithoutB (turns i).message × UntilB turns left (i + 1)))

-- The wait that has found client B, in a client A that goes on with its city.
abbrev pub Finds : State → Option State → Type 0
Finds s r =
    (last : State) × (r ≡ some last)
    × (last.client_b_connected ≡ true)
    × (last.running ≡ true)
    × (last.city ≡ s.city)

received-kept :
    (s : State) (m : Option Bytes)
    → WithoutB m
    → (next : State) × (wait_received s m ≡ some (true, next))
      × (next.running ≡ s.running)
      × (next.city ≡ s.city)
unfolding wait_received
received-kept s none h = (s, refl, refl, refl)
received-kept s (some msg) (text, e, nb) =
    ((wait_message s text).1, ground arith, ground arith, ground arith)

received-b :
    (s : State)
    → wait_received s (some b_connected) ≡ some (false, record s { client_b_connected = true })
unfolding wait_received received_text contains
received-b s = refl

pub wait-Finds :
    (turns : ℕ → Turn) (left i : ℕ) (s : State)
    → s.running ≡ true
    → UntilB turns left i
    → Finds s (wait_for_b turns left i s)
unfolding wait_for_b
wait-Finds turns zero i s on h = absurd h
wait-Finds turns (suc left) i s on (go, inl told) =
    (record s { client_b_connected = true }, ground (arith, received-b s), refl, on, refl)
wait-Finds turns (suc left) i s on (go, inr (silent, h)) =
    let (next, e, run, same) = received-kept s (turns i).message silent in
    let (last, f, b, on', c) = wait-Finds turns left (i + 1) next (run ∙ on) h in
    (last, ground (arith, go, on, e, f), b, on', c ∙ same)

-- If no message after the confirmation, in the rounds of the wait, tells of client B, then client A ends
-- with status 0 having sent nothing but its identity.
pub client_main-WithoutB :
    (env : Session) (text : Bytes)
    → env.has_socket ≡ true
    → env.address_valid ≡ true
    → env.connects ≡ true
    → received_text env.confirmation ≡ some text
    → RoundsWithoutB env.waiting 5 0
    → client_main env ≡ some (0, bytes "CLIENT_A" ∷ [])
unfolding client_main run_connected
client_main-WithoutB env text a b c e h =
    let (last, f, same) = wait-WithoutB env.waiting 5 0 initial_state h in ground arith
