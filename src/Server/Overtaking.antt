-- ===== src/Server/Overtaking.antt =====
-- Two threads of the server send to the same client: the confirmation of a client B that has just
-- registered, and a message of client A.
use smart_home_weather_monit.Base.{
  ℕ, ◌≡◌, ◌≢◌, refl, ap, true, none, some, List, [], ◌∷◌, ◌++◌, arith, append_assoc, append-nil,
  Option-cases, inl, inr, if◌then◌else◌, ◌==◌,
}
use smart_home_weather_monit.Text.{Bytes, bytes, contains}
use smart_home_weather_monit.Server.{
  sent, connected, b_connected, identify, forward, send_if, received_text,
}
use smart_home_weather_monit.Server.Threads.{
  Phase, Server, update, registered, accepts, identifies, confirms, forwards, Reach, later,
}
use smart_home_weather_monit.Server.Invariant.{role_c, Reach-Inv}
use smart_home_weather_monit.Server.Broker.{Message, messages, history}

-- What a client is sent, in order.
abbrev pub texts_for : ℕ → List Message → List Bytes
texts_for fd [] = []
texts_for fd ((i, text) ∷ ms) = if i == fd then text ∷ texts_for fd ms else texts_for fd ms

-- A state in which client A is served and fd is not open; client B comes on fd.
module _ {s : Server} (r : Reach s) (a fd : ℕ) (text : Bytes) (held : s.clients.client_a ≡ some a)
    (serves : s.phase a ≡ some Phase.serving) (free : s.phase fd ≡ none)
    (told : received_text text ≡ some text) where
  abbrev opened : Server
  opened = record s { phase = update s.phase fd (some Phase.identifying) }

  abbrev with_b : Server
  with_b = registered opened fd (bytes "CLIENT_B")

  abbrev confirmed : Server
  confirmed = record with_b { phase = update with_b.phase fd (some Phase.serving) }

  distinct : a ≢ fd
  distinct e = ground (arith, ap s.phase e)

  c-distinct : (c : ℕ) → s.clients.client_c ≡ some c → c ≢ fd
  c-distinct c e f = let live = (Reach-Inv r).live role_c c e in rw (f, free) at live

  name_b-received : received_text (bytes "CLIENT_B") ≡ some (bytes "CLIENT_B")
  unfolding received_text
  name_b-received = refl

  accepts_b : (identify s.clients fd (bytes "CLIENT_B")).accepted ≡ true
  unfolding identify contains
  accepts_b = refl

  run : Reach confirmed
  run =
      later (sent fd connected ∷ [])
        (later (forward with_b.clients a text)
          (later (identify s.clients fd (bytes "CLIENT_B")).actions (later [] r (accepts fd free))
            (identifies fd (bytes "CLIENT_B") (bytes "CLIENT_B") (ground arith) name_b-received))
          (forwards a text text (ground (arith, distinct)) told))
        (confirms fd (ground (arith, accepts_b)))

  identify-told :
      messages (identify s.clients fd (bytes "CLIENT_B")).actions ≡ (a, b_connected) ∷ []
  unfolding identify contains
  identify-told = ground (arith, held)

  forward-told :
      messages (forward with_b.clients a text)
      ≡ (fd, text) ∷ messages (send_if s.clients.client_c text)
  unfolding identify forward contains
  forward-told = ground (arith, held)

  -- What the run adds to the history.
  abbrev added : List Message
  added =
      (a, b_connected)
      ∷ (fd, text)
      ∷ (messages (send_if s.clients.client_c text) ++ (fd, connected) ∷ [])

  history-run : history run ≡ history r ++ added
  unfolding history run
  history-run = simp (identify-told, forward-told, append-nil, append_assoc)

  texts-added : texts_for fd added ≡ text ∷ connected ∷ []
  texts-added = elim (Option-cases s.clients.client_c) [
    | inl e ↦ rw e (ground (arith, distinct))
    | inr (c, e) ↦ rw e (ground (arith, distinct, c-distinct c e))
  ]

  b-registered : confirmed.clients.client_b ≡ some fd
  unfolding identify contains
  b-registered = refl

  -- Whenever client A is registered and served, a client B that connects can be sent a message of A before
  -- its confirmation: from every such state there is a run of the threads in which B registers, A sends
  -- any text, and B is sent this text and then "CONNECTED", and nothing else.
  pub report_overtakes :
      (last : Server) × (t : Reach last) × (new : List Message) × (history t ≡ history r ++ new)
      × (texts_for fd new ≡ text ∷ connected ∷ [])
      × (last.clients.client_b ≡ some fd)
      × (last.phase fd ≡ some Phase.serving)
  report_overtakes = (confirmed, run, added, history-run, texts-added, b-registered, ground arith)
