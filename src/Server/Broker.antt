-- ===== src/Server/Broker.antt =====
-- The threads of the server as an implementation of an abstract broker of roles.
mod Roles
pub use Roles.{
  Registry, Same, same_role, assign, Message, send_to, relayed, told_if, announced, Names, Event,
  nothing, identified, waiting, said, gone, HasRole, Served, rests, greets, joins, refuses, relays,
  ignores, leaves, forgets, messages, Serves, opens, goes_on,
}
use smart_home_weather_monit.Base.{
  ℕ, ◌≡◌, ◌≢◌, refl, ap, Bool, true, false, Option, none, some, List, [], ◌∷◌, ◌++◌, arith, inl,
  inr, Bool-cases, if◌then◌else◌,
}
use smart_home_weather_monit.Text.{Bytes, bytes, contains}
use smart_home_weather_monit.Server.{
  Clients, Action, sent, closed, connected, identify, forward, unregister, send_if, notify_new,
  is_fd, b_connected, c_connected,
}
use smart_home_weather_monit.Server.Threads.{
  Server, Step, accepts, spawn_fails, no_identity, identifies, confirms, forwards, loses, closes,
  Reach, start, later, started,
}
use smart_home_weather_monit.Server.Invariant.{Role, role_a, role_b, role_c, holder, Inv, Reach-Inv}

messages-append : (xs ys : List Action) → messages (xs ++ ys) ≡ messages xs ++ messages ys
messages-append [] ys = refl
messages-append (sent fd text ∷ xs) ys = ap (◌∷◌ (fd, text)) (messages-append xs ys)
messages-append (closed fd ∷ xs) ys = messages-append xs ys

messages-send_if : (x : Option ℕ) (text : Bytes) → messages (send_if x text) ≡ send_to x text
messages-send_if none text = refl
messages-send_if (some fd) text = refl

messages-notify_new :
    (x : Option ℕ) (fd : ℕ) (text : Bytes) → messages (notify_new x fd text) ≡ told_if x fd text
messages-notify_new none fd text = refl
messages-notify_new (some y) fd text = refl

is_fd-eq : (x : Option ℕ) (fd : ℕ) → is_fd x fd ≡ true → x ≡ some fd
is_fd-eq none fd e = cc
is_fd-eq (some y) fd e = ground arith

is_fd-ne : (x : Option ℕ) (fd : ℕ) → is_fd x fd ≡ false → x ≢ some fd
is_fd-ne none fd e = λ f. cc
is_fd-ne (some y) fd e = λ f. ground (arith, f)

-- No slot holds the descriptor.
no_role :
    (g : Clients) (fd : ℕ)
    → is_fd g.client_a fd ≡ false
    → is_fd g.client_b fd ≡ false
    → is_fd g.client_c fd ≡ false
    → HasRole (holder g) fd
    → ⊥
no_role g fd a b c (role_a, e) = is_fd-ne g.client_a fd a e
no_role g fd a b c (role_b, e) = is_fd-ne g.client_b fd b e
no_role g fd a b c (role_c, e) = is_fd-ne g.client_c fd c e

Names-none :
    (text : Bytes)
    → contains text (bytes "CLIENT_A") ≡ false
    → contains text (bytes "CLIENT_B") ≡ false
    → contains text (bytes "CLIENT_C") ≡ false
    → (k : Role) → Names text k
    → ⊥
Names-none text a b c role_a h = absurd (ground (arith, a, h))
Names-none text a b c role_b h = absurd (ground (arith, b, h.1))
Names-none text a b c role_c h = absurd (ground (arith, c, h.2))

ruleset message_laws = (messages-append, messages-send_if, messages-notify_new)

module _ (g : Clients) (x : Option ℕ) where
  assign_a : Same (holder (record g { client_a = x })) (assign (holder g) role_a x)
  assign_a role_a = refl
  assign_a role_b = refl
  assign_a role_c = refl

  assign_b : Same (holder (record g { client_b = x })) (assign (holder g) role_b x)
  assign_b role_a = refl
  assign_b role_b = refl
  assign_b role_c = refl

  assign_c : Same (holder (record g { client_c = x })) (assign (holder g) role_c x)
  assign_c role_a = refl
  assign_c role_b = refl
  assign_c role_c = refl

identify-Served :
    (g : Clients) (fd : ℕ) (text : Bytes)
    → (HasRole (holder g) fd → ⊥)
    → Served
        (holder g)
        (identified fd text)
        (messages (identify g fd text).actions)
        (holder (identify g fd text).clients)
unfolding identify
identify-Served g fd text free = elim (Bool-cases (contains text (bytes "CLIENT_A"))) [
  | inl a ↦ rw a (joins role_a fd text _ _ a free (simp message_laws) (assign_a g (some fd)))
  | inr na ↦ rw na (elim (Bool-cases (contains text (bytes "CLIENT_B"))) [
    | inl b ↦
        rw b (joins role_b fd text _ _ (na, b) free (simp message_laws) (assign_b g (some fd)))
    | inr nb ↦ rw nb (elim (Bool-cases (contains text (bytes "CLIENT_C"))) [
      | inl c ↦
          rw c
            (joins role_c fd text _ _ (na, nb, c) free (simp message_laws) (assign_c g (some fd)))
      | inr nc ↦ rw nc (refuses fd text _ (Names-none text na nb nc) (λ k. refl))
    ])
  ])
]

forward-Served :
    (g : Clients) (fd : ℕ) (text : Bytes)
    → Served (holder g) (said fd text) (messages (forward g fd text)) (holder g)
unfolding forward
forward-Served g fd text = elim (Bool-cases (is_fd g.client_a fd)) [
  | inl a ↦
      rw a (relays role_a fd text _ _ (is_fd-eq g.client_a fd a) (simp message_laws) (λ k. refl))
  | inr na ↦ rw na (elim (Bool-cases (is_fd g.client_b fd)) [
    | inl b ↦
        rw b (relays role_b fd text _ _ (is_fd-eq g.client_b fd b) (simp message_laws) (λ k. refl))
    | inr nb ↦ rw nb (elim (Bool-cases (is_fd g.client_c fd)) [
      | inl c ↦
          rw c
            (relays role_c fd text _ _ (is_fd-eq g.client_c fd c) (simp message_laws) (λ k. refl))
      | inr nc ↦ rw nc (ignores fd text _ (no_role g fd na nb nc) (λ k. refl))
    ])
  ])
]

unregister-Served :
    (g : Clients) (fd : ℕ) → Served (holder g) (gone fd) [] (holder (unregister g fd))
unfolding unregister
unregister-Served g fd = elim (Bool-cases (is_fd g.client_a fd)) [
  | inl a ↦ rw a (leaves role_a fd _ (is_fd-eq g.client_a fd a) (assign_a g none))
  | inr na ↦ rw na (elim (Bool-cases (is_fd g.client_b fd)) [
    | inl b ↦ rw b (leaves role_b fd _ (is_fd-eq g.client_b fd b) (assign_b g none))
    | inr nb ↦ rw nb (elim (Bool-cases (is_fd g.client_c fd)) [
      | inl c ↦ rw c (leaves role_c fd _ (is_fd-eq g.client_c fd c) (assign_c g none))
      | inr nc ↦ rw nc (forgets fd _ (no_role g fd na nb nc) (λ k. refl))
    ])
  ])
]

-- What the broker hears in a step of a thread.
abbrev pub event : {s t : Server} → {acts : List Action} → Step s acts t → Event
event (accepts fd e) = nothing
event (spawn_fails fd e) = nothing
event (no_identity fd e) = nothing
event (identifies fd msg text e r) = identified fd text
event (confirms fd e) = waiting fd
event (forwards fd msg text e r) = said fd text
event (loses fd e) = gone fd
event (closes fd e) = nothing

-- Every step of a thread is what the broker does on its event.
Step-Served :
    {s t : Server} {acts : List Action} (st : Step s acts t)
    → Inv s
    → Served (holder s.clients) (event st) (messages acts) (holder t.clients)
Step-Served (accepts fd e) inv = rests _ (λ k. refl)
Step-Served (spawn_fails fd e) inv = rests _ (λ k. refl)
Step-Served (no_identity fd e) inv = rests _ (λ k. refl)
Step-Served {s} (identifies fd msg text e r) inv =
    identify-Served s.clients fd text (λ h. rw e at (inv.live h.0 fd h.1))
Step-Served (confirms fd e) inv = greets fd _ (λ k. refl)
Step-Served {s} (forwards fd msg text e r) inv = forward-Served s.clients fd text
Step-Served {s} (loses fd e) inv = unregister-Served s.clients fd
Step-Served (closes fd e) inv = rests _ (λ k. refl)

-- All events of a run of the server, and all messages that it has sent.
unfoldable pub events : {s : Server} → Reach s → List Event
events start = []
events (later acts r st) = events r ++ event st ∷ []

unfoldable pub history : {s : Server} → Reach s → List Message
history start = []
history (later acts r st) = history r ++ messages acts

none_held : (k : Role) → holder started.clients k ≡ none
none_held role_a = refl
none_held role_b = refl
none_held role_c = refl

-- Every run of the server's threads, in any interleaving, is the run of the broker on the same events: on
-- each event the same messages are sent in the same order, and the registry is the same. The broker gives
-- a role by the first name that an identity contains, passes on what the player of a role says to the
-- players of the others as the roles have it, says nothing for one without a role, and frees the role of
-- one that is gone.
pub Reach-Serves : {s : Server} (r : Reach s) → Serves (events r) (history r) (holder s.clients)
unfolding history events
Reach-Serves start = opens _ none_held
Reach-Serves (later acts r st) =
    goes_on (events r) (event st) (history r) (messages acts) _ (Reach-Serves r)
      (Step-Served st (Reach-Inv r))
