-- ===== src/Server/Safety.antt =====
-- To which descriptors the threads of the server send, and which they close.
use smart_home_weather_monit.Base.{
  ℕ, ◌≡◌, refl, Option, none, some, List, [], ◌∷◌, arith, All, inl, inr, true, false, Bool-cases,
  ◌≢◌, All-append,
}
use smart_home_weather_monit.Text.{Bytes, bytes, contains}
use smart_home_weather_monit.Server.{
  Clients, Action, sent, closed, identify, forward, send_if, notify_new, is_fd, b_connected,
  c_connected,
}
use smart_home_weather_monit.Server.Threads.{
  identifying, Server, registered, Step, accepts, spawn_fails, no_identity, identifies, confirms,
  forwards, loses, closes, Reach, later,
}
use smart_home_weather_monit.Server.Invariant.{
  role_a, role_b, role_c, Role, holder, IsLive, Inv, registered-Inv, Reach-Inv,
}

-- A send goes to a descriptor whose thread is live, a close to one that is registered in no role.
abbrev pub IsSafe : Server → Action → Type 0
IsSafe s (sent fd msg) = IsLive (s.phase fd)
IsSafe s (closed fd) = (k : Role) → holder s.clients k ≢ some fd

abbrev GoesTo : (ℕ → Type 0) → Action → Type 0
GoesTo P (sent fd msg) = P fd
GoesTo P (closed fd) = ⊥

send_if-GoesTo :
    (P : ℕ → Type 0) (x : Option ℕ) (msg : Bytes)
    → ((fd : ℕ) → x ≡ some fd → P fd)
    → All (GoesTo P) (send_if x msg)
send_if-GoesTo P none msg h = tt
send_if-GoesTo P (some fd) msg h = (h fd refl, tt)

forward-GoesTo :
    (P : ℕ → Type 0) (g : Clients) (fd : ℕ) (text : Bytes)
    → ((k : Role) (i : ℕ) → holder g k ≡ some i → P i)
    → All (GoesTo P) (forward g fd text)
unfolding forward
forward-GoesTo P g fd text h = elim (Bool-cases (is_fd g.client_a fd)) [
  | inl a ↦ rw a (
      All-append (GoesTo P) (send_if g.client_b text) (send_if g.client_c text) (to role_b)
        (to role_c))
  | inr na ↦ rw na (elim (Bool-cases (is_fd g.client_b fd)) [
    | inl b ↦ rw b (to role_a)
    | inr nb ↦
        rw nb
          (elim (Bool-cases (is_fd g.client_c fd)) [ inl c ↦ rw c (to role_b) | inr nc ↦ rw nc tt ])
  ])
]
  where
    to : (k : Role) → All (GoesTo P) (send_if (holder g k) text)
    to k = send_if-GoesTo P (holder g k) text (h k)

notify_new-GoesTo :
    (P : ℕ → Type 0) (x : Option ℕ) (fd : ℕ) (msg : Bytes)
    → P fd
    → All (GoesTo P) (notify_new x fd msg)
notify_new-GoesTo P none fd msg h = tt
notify_new-GoesTo P (some x) fd msg h = (h, tt)

IsSafe-of_GoesTo :
    (s : Server) (acts : List Action)
    → All (GoesTo (λ fd. IsLive (s.phase fd))) acts
    → All (IsSafe s) acts
IsSafe-of_GoesTo s [] h = tt
IsSafe-of_GoesTo s (sent fd msg ∷ acts) h = (h.0, IsSafe-of_GoesTo s acts h.1)
IsSafe-of_GoesTo s (closed fd ∷ acts) h = absurd h.0

-- A descriptor whose thread is not live is registered in no role.
not_held :
    {s : Server}
    → Inv s
    → (fd : ℕ) → (IsLive (s.phase fd) → ⊥)
    → (k : Role) → holder s.clients k ≢ some fd
not_held inv fd dead k e = dead (inv.live k fd e)

identify-GoesTo :
    (P : ℕ → Type 0) (g : Clients) (fd : ℕ) (text : Bytes)
    → (identify g fd text).accepted ≡ true
    → P fd
    → ((i : ℕ) → g.client_a ≡ some i → P i)
    → All (GoesTo P) (identify g fd text).actions
unfolding identify
identify-GoesTo P g fd text ok here to_a = elim (Bool-cases (contains text (bytes "CLIENT_A"))) [
  | inl a ↦ rw a (
      All-append (GoesTo P) (notify_new g.client_b fd b_connected)
        (notify_new g.client_c fd c_connected) (notify_new-GoesTo P _ fd b_connected here)
        (notify_new-GoesTo P _ fd c_connected here))
  | inr na ↦ rw na (elim (Bool-cases (contains text (bytes "CLIENT_B"))) [
    | inl b ↦ rw b (send_if-GoesTo P g.client_a b_connected to_a)
    | inr nb ↦ rw nb (elim (Bool-cases (contains text (bytes "CLIENT_C"))) [
      | inl c ↦ rw c (send_if-GoesTo P g.client_a c_connected to_a)
      | inr nc ↦ absurd (ground arith)
    ])
  ])
]

identify_refused :
    (g : Clients) (fd : ℕ) (text : Bytes)
    → (identify g fd text).accepted ≡ false
    → (identify g fd text).actions ≡ closed fd ∷ []
unfolding identify
identify_refused g fd text no_role = ground arith

identify-IsSafe :
    {s : Server} (inv : Inv s) (fd : ℕ) (text : Bytes)
    → s.phase fd ≡ some identifying
    → All (IsSafe (registered s fd text)) (identify s.clients fd text).actions
identify-IsSafe {s} inv fd text e = elim (Bool-cases (identify s.clients fd text).accepted) [
  | inl ok ↦ IsSafe-of_GoesTo (registered s fd text) (identify s.clients fd text).actions (
      identify-GoesTo (λ i. IsLive ((registered s fd text).phase i)) s.clients fd text ok
        (ground arith) (λ i h. ground (arith, inv.live role_a i)))
  | inr no_role ↦
      rw (identify_refused s.clients fd text no_role)
        (not_held (registered-Inv inv fd text e) fd (λ l. ground arith), tt)
]

Step-IsSafe :
    {s t : Server} {acts : List Action} → Step s acts t → Inv s → Inv t → All (IsSafe t) acts
Step-IsSafe (accepts fd e) inv inv' = tt
Step-IsSafe (spawn_fails fd e) inv inv' = (not_held inv' fd (λ l. ground arith), tt)
Step-IsSafe (no_identity fd e) inv inv' = (not_held inv' fd (λ l. ground arith), tt)
Step-IsSafe (identifies fd msg text e r) inv inv' = identify-IsSafe inv fd text e
Step-IsSafe (confirms fd e) inv inv' = (ground arith, tt)
Step-IsSafe {s} (forwards fd msg text e r) inv inv' =
    IsSafe-of_GoesTo s (forward s.clients fd text)
      (forward-GoesTo (λ i. IsLive (s.phase i)) s.clients fd text inv.live)
Step-IsSafe (loses fd e) inv inv' = tt
Step-IsSafe (closes fd e) inv inv' = (not_held inv' fd (λ l. ground arith), tt)

-- From a reachable state every step sends only to descriptors whose threads are live afterwards, and
-- closes only descriptors that are then registered in no role.
pub Reach-IsSafe :
    {s t : Server} (acts : List Action) → Reach s → Step s acts t → All (IsSafe t) acts
Reach-IsSafe acts r st = Step-IsSafe st (Reach-Inv r) (Reach-Inv (later acts r st))
