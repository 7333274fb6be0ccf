-- ===== src/Server/Threads.antt =====
-- All threads of the server, interleaved: `main` accepts connections, and each connection has a thread
-- in `handle_client`. A step is one critical section, or one call outside the mutex.
use smart_home_weather_monit.Base.{
  ℕ, ◌≡◌, Bool, true, false, Option, none, some, List, [], ◌∷◌, ◌==◌, if◌then◌else◌,
}
use smart_home_weather_monit.Text.{Bytes}
use smart_home_weather_monit.Server.{
  Clients, no_clients, Action, sent, closed, connected, identify, forward, unregister,
  received_text,
}

-- Where the thread of a connection stands.
pub data Phase : Type 0 where
  identifying : Phase  -- before the first `recv`
  confirming : Phase  -- registered, before the send of "CONNECTED"
  serving : Phase  -- in the loop
  closing : Phase  -- out of the last critical section, before `close`

-- The globals, and the thread of each descriptor; `none` is a descriptor that is not open.
pub record Server : Type 0 where
  pub clients : Clients
  pub phase : ℕ → Option Phase

abbrev pub update : (ℕ → Option Phase) → ℕ → Option Phase → ℕ → Option Phase
update f fd p i = if fd == i then p else f i

abbrev pub started : Server
started = record { clients = no_clients; phase = λ i. none }

-- A thread that was refused has closed its descriptor.
abbrev pub after_identity : Bool → Option Phase
after_identity true = some Phase.confirming
after_identity false = none

-- The state after the thread of `fd` has handled the identity message.
abbrev pub registered : Server → ℕ → Bytes → Server
registered s fd text =
    let r = identify s.clients fd text in
    record { clients = r.clients; phase = update s.phase fd (after_identity r.accepted) }

-- One step, with what it does to the descriptors. `accept` returns a descriptor that is not open. A
-- message that fills the buffer has no step: there the source's behaviour is undefined.
pub data Step (s : Server) : List Action → Server → Type 0 where
  accepts :
      (fd : ℕ)
      → s.phase fd ≡ none
      → Step s [] (record s { phase = update s.phase fd (some Phase.identifying) })
  spawn_fails : (fd : ℕ) → s.phase fd ≡ none → Step s (closed fd ∷ []) s
  no_identity :
      (fd : ℕ)
      → s.phase fd ≡ some Phase.identifying
      → Step s (closed fd ∷ []) (record s { phase = update s.phase fd none })
  identifies :
      (fd : ℕ) (msg text : Bytes)
      → s.phase fd ≡ some Phase.identifying
      → received_text msg ≡ some text
      → Step s (identify s.clients fd text).actions (registered s fd text)
  confirms :
      (fd : ℕ)
      → s.phase fd ≡ some Phase.confirming
      → Step s
          (sent fd connected ∷ [])
          (record s { phase = update s.phase fd (some Phase.serving) })
  forwards :
      (fd : ℕ) (msg text : Bytes)
      → s.phase fd ≡ some Phase.serving
      → received_text msg ≡ some text
      → Step s (forward s.clients fd text) s
  loses :
      (fd : ℕ)
      → s.phase fd ≡ some Phase.serving
      → Step s [] (record {
        clients = unregister s.clients fd;
        phase = update s.phase fd (some Phase.closing);
      })
  closes :
      (fd : ℕ)
      → s.phase fd ≡ some Phase.closing
      → Step s (closed fd ∷ []) (record s { phase = update s.phase fd none })

-- The states that the server can reach from its start.
pub data Reach : Server → Type 0 where
  start : Reach started
  later : {s t : Server} (acts : List Action) → Reach s → Step s acts t → Reach t
