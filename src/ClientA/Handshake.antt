-- ===== src/ClientA/Handshake.antt =====
-- Client A and the server together: what a client A that connects after client B receives, however TCP cuts
-- it, and what it makes of it.
use smart_home_weather_monit.Base.{
  ℕ, zero, suc, ◌+◌, ◌<◌, ◌≡◌, ◌≢◌, refl, ◌∙◌, ap, sym, true, false, Option, none, some, List, [],
  ◌∷◌, ◌++◌, arith, inl, inr, if◌then◌else◌, ◌==◌, Option-cases, append-nil, length,
}
use smart_home_weather_monit.Text.{Bytes, bytes, contains}
use smart_home_weather_monit.Text.Parts.{
  Part, Part-contains, Part-piece, Part-rest, Part-IsText, Part-length,
}
use smart_home_weather_monit.Text.Buffers.{IsText, c_text_lem, text_of-received}
use smart_home_weather_monit.Server.{
  Clients, Action, sent, closed, identify, b_connected, connected,
}
use smart_home_weather_monit.ClientA.{Session, Turn, received_text, client_main}
use smart_home_weather_monit.ClientA.Waiting.{WithoutB, RoundsWithoutB, client_main-WithoutB}

-- What is sent to a descriptor, in order.
abbrev pub messages_to : ℕ → List Action → List Bytes
messages_to fd [] = []
messages_to fd (sent i msg ∷ acts) =
    if i == fd then msg ∷ messages_to fd acts else messages_to fd acts
messages_to fd (closed i ∷ acts) = messages_to fd acts

abbrev pub stream_of : List Bytes → Bytes
stream_of [] = []
stream_of (m ∷ ms) = m ++ stream_of ms

-- What a `recv` returns is a piece of the stream, or nothing yet; then comes the rest.
abbrev pub Piece : (Bytes → Type 0) → Bytes → Option Bytes → Type 0
Piece Rest stream none = Rest stream
Piece Rest stream (some piece) = (rest : Bytes) × (stream ≡ piece ++ rest) × Rest rest

-- What the rounds of a wait receive are pieces of a stream, one after the other, cut anywhere.
abbrev pub Receives : (ℕ → Turn) → (left i : ℕ) → Bytes → Type 0
Receives turns zero i stream = Unit
Receives turns (suc left) i stream = Piece (Receives turns left (i + 1)) stream (turns i).message

received_text-Part :
    (t whole : Bytes) → Part t whole → IsText whole → length whole < 1024 → received_text t ≡ some t
unfolding received_text
received_text-Part t whole p h l =
    text_of-received 1024 t (omega (arith, Part-length t whole p))
    ∙ ap some (c_text_lem t (Part-IsText t whole p h))

-- No piece of a stream tells of client B if the stream does not.
module _ (whole : Bytes) (text : IsText whole) (short : length whole < 1024)
    (silent : contains whole b_connected ≡ false) where
  Piece-WithoutB :
      (turns : ℕ → Turn) (left i : ℕ) (stream : Bytes) (m : Option Bytes)
      → Part stream whole
      → Piece (Receives turns left i) stream m
      → ((t : Bytes) → Part t whole → Receives turns left i t → RoundsWithoutB turns left i)
      → WithoutB m × RoundsWithoutB turns left i
  Piece-WithoutB turns left i stream none p h later = (tt, later stream p h)
  Piece-WithoutB turns left i stream (some piece) p (rest, e, h) later =
      let q = Part-piece piece rest stream whole e p in
      (
        (
          piece,
          received_text-Part piece whole q text short,
          Part-contains piece whole b_connected q silent,
        ),
        later rest (Part-rest piece rest stream whole e p) h,
      )

  Receives-RoundsWithoutB :
      (turns : ℕ → Turn) (left i : ℕ) (stream : Bytes)
      → Part stream whole
      → Receives turns left i stream
      → RoundsWithoutB turns left i
  Receives-RoundsWithoutB turns zero i stream p h = tt
  Receives-RoundsWithoutB turns (suc left) i stream p h =
      Piece-WithoutB turns left (i + 1) stream (turns i).message p h
        (Receives-RoundsWithoutB turns left (i + 1))

-- The stream behind its first byte.
abbrev tail : Option ℕ → Bytes
tail none = bytes "LIENT_B_CONNECTEDCONNECTED"
tail (some c) = bytes "LIENT_B_CONNECTEDCLIENT_C_CONNECTEDCONNECTED"

-- When client A identifies itself at a server that knows client B, the server sends it the notice of B
-- before the confirmation.
identify-stream :
    (g : Clients) (fd b : ℕ)
    → g.client_b ≡ some b
    → stream_of
        (messages_to fd ((identify g fd (bytes "CLIENT_A")).actions ++ sent fd connected ∷ []))
      ≡ b'C' ∷ tail g.client_c
unfolding identify contains
identify-stream g fd b e = elim (Option-cases g.client_c) [
  | inl f ↦ ground (arith, e, f)
  | inr (c, f) ↦ ground (arith, e, f)
]

tail-silent : (c : Option ℕ) → contains (tail c) b_connected ≡ false
unfolding contains
tail-silent none = refl
tail-silent (some c) = refl

tail-IsText : (c : Option ℕ) → IsText (tail c)
tail-IsText none = omega arith
tail-IsText (some c) = omega arith

tail-short : (c : Option ℕ) → length (tail c) < 100
tail-short none = omega arith
tail-short (some c) = omega arith

same_tail : (x y : ℕ) (s t : Bytes) → ◌≡◌ {A = Bytes} (x ∷ s) (y ∷ t) → (x ≡ y) × (s ≡ t)
same_tail x y s t e = ground arith

-- The confirmation takes at least the first byte.
confirmed :
    (env : Session) (whole rest confirmation : Bytes)
    → env.confirmation ≡ confirmation
    → confirmation ≢ []
    → b'C' ∷ whole ≡ confirmation ++ rest
    → IsText whole
    → length whole < 100
    → ((text : Bytes) × (received_text env.confirmation ≡ some text)) × Part rest whole
confirmed env whole rest [] e ne s t l = absurd (ne refl)
confirmed env whole rest (x ∷ conf) e ne s t l =
    let (h, f) = same_tail b'C' x whole (conf ++ rest) s in
    let p : Part rest whole = (conf, [], f ∙ ap (λ r. conf ++ r) (sym (append-nil rest))) in
    (
      (
        x ∷ conf,
        ap received_text e
            ∙ received_text-Part (x ∷ conf) (b'C' ∷ whole) ([], rest, s) ((λ z. omega arith), t)
                (omega arith),
      ),
      p,
    )

-- Client B is registered when client A connects, and client C may be. However the stream that the server
-- sends to A is cut into what A's `recv` calls return, and whether or not its last bytes have come when the
-- wait is over, A takes the notice of B, or its beginning, for the confirmation, never sees it in the wait,
-- and ends without having sent a report.
pub late_client_a :
    (g : Clients) (fd b : ℕ) (env : Session) (rest : Bytes)
    → g.client_b ≡ some b
    → stream_of
        (messages_to fd ((identify g fd (bytes "CLIENT_A")).actions ++ sent fd connected ∷ []))
      ≡ env.confirmation ++ rest
    → env.confirmation ≢ []
    → Receives env.waiting 5 0 rest
    → env.has_socket ≡ true
    → env.address_valid ≡ true
    → env.connects ≡ true
    → client_main env ≡ some (0, bytes "CLIENT_A" ∷ [])
late_client_a g fd b env rest e m ne h x y z =
    let whole = tail g.client_c in
    let t = tail-IsText g.client_c in
    let l = tail-short g.client_c in
    let ((text, q), p) =
      confirmed env whole rest env.confirmation refl ne (sym (identify-stream g fd b e) ∙ m) t l in
    client_main-WithoutB env text x y z q (
      Receives-RoundsWithoutB whole t (omega arith) (tail-silent g.client_c) env.waiting 5 0 rest p
        h)
