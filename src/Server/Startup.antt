-- ===== src/Server/Startup.antt =====
-- `main` of the server: the listening socket, and the loop that hands connections to threads.
use smart_home_weather_monit.Base.{
  ℕ, ◌≡◌, refl, Bool, true, false, Option, none, some, List, [], ◌∷◌, arith, is_some, ◌&&◌, ◌⊎◌,
  map, if◌then◌else◌,
}

-- What `socket`, `bind` and `listen` return; `none` is a negative descriptor.
pub record Setup : Type 0 where
  pub server_fd : Option ℕ
  pub bound : Bool
  pub listening : Bool

-- One round of the loop: `accept` fails, or it returns a descriptor and `pthread_create` succeeds or not.
pub data Accepted : Type 0 where
  accept_failed : Accepted
  accepted : ℕ → (created : Bool) → Accepted

pub data Event : Type 0 where
  closed_fd : ℕ → Event
  thread_created : ℕ → Event

-- The exit status of `main`; `waits` is the loop blocked in `accept`.
pub data Status : Type 0 where
  failed : Status  -- return -1
  waits : Status

unfoldable pub accept_loop : List Accepted → List Event
accept_loop [] = []
accept_loop (accept_failed ∷ rest) = accept_loop rest
accept_loop (accepted fd true ∷ rest) = thread_created fd ∷ accept_loop rest
accept_loop (accepted fd false ∷ rest) = closed_fd fd ∷ accept_loop rest

unfoldable pub server_main : Setup → List Accepted → List Event × Status
unfolding accept_loop
server_main env rounds = elim env.server_fd [
  | none ↦ ([], failed)
  | some fd ↦
      if env.bound
      then (if env.listening then (accept_loop rounds, waits) else (closed_fd fd ∷ [], failed))
      else (closed_fd fd ∷ [], failed)
]

-- The descriptors that `accept` returned, each with whether a thread could be created for it.
abbrev pub accepted_fds : List Accepted → List (ℕ × Bool)
accepted_fds [] = []
accepted_fds (accept_failed ∷ rest) = accepted_fds rest
accepted_fds (accepted fd created ∷ rest) = (fd, created) ∷ accepted_fds rest

-- The descriptor of an event, and whether it got a thread.
abbrev pub served_fd : Event → ℕ × Bool
served_fd (closed_fd fd) = (fd, false)
served_fd (thread_created fd) = (fd, true)

accept_loop-fds :
    (rounds : List Accepted) → map served_fd (accept_loop rounds) ≡ accepted_fds rounds
unfolding accept_loop
accept_loop-fds [] = refl
accept_loop-fds (accept_failed ∷ rest) = accept_loop-fds rest
accept_loop-fds (accepted fd true ∷ rest) = ground (arith, accept_loop-fds rest)
accept_loop-fds (accepted fd false ∷ rest) = ground (arith, accept_loop-fds rest)

abbrev pub close_of : Option ℕ → List Event
close_of none = []
close_of (some fd) = closed_fd fd ∷ []

-- Either the listening socket is set up, `main` waits for more, and every accepted descriptor is
-- handled once and in order: it has a thread if one could be created, and is closed if not; or a call failed, and `main` fails with the socket, if there
-- was one, closed.
pub server_main-descriptors :
    (env : Setup) (rounds : List Accepted)
    → ((is_some env.server_fd && env.bound && env.listening ≡ true)
        × ((server_main env rounds).1 ≡ waits)
        × (map served_fd (server_main env rounds).0 ≡ accepted_fds rounds))
      ⊎ ((is_some env.server_fd && env.bound && env.listening ≡ false)
          × (server_main env rounds ≡ (close_of env.server_fd, failed)))
unfolding server_main
server_main-descriptors env rounds = ground (arith, accept_loop-fds rounds)
