-- ===== src/Server/Routing.antt =====
-- Who gets a message: A's weather goes to B and C, B's city goes to A, C's command goes to B.
use smart_home_weather_monit.Base.{
  Option, ◌⊎◌, inl, inr, Bool-cases, ap, none, ◌==◌, ==_iff, ℕ, ◌≡◌, ◌≢◌, some, List, [], ◌∷◌, ◌++◌,
  arith, append-nil,
}
use smart_home_weather_monit.Text.{Bytes}
use smart_home_weather_monit.Server.{Clients, Action, forward, send_if}
use smart_home_weather_monit.Server.Threads.{Server, Reach}
use smart_home_weather_monit.Server.Invariant.{Role, role_a, role_b, role_c, holder, Reach-Inv}

-- The roles that a role's messages are for.
abbrev pub audience : Role → List Role
audience role_a = role_b ∷ role_c ∷ []
audience role_b = role_a ∷ []
audience role_c = role_b ∷ []

-- One send to each of the roles that is registered.
abbrev pub deliveries : Clients → List Role → Bytes → List Action
deliveries g [] text = []
deliveries g (k ∷ ks) text = send_if (holder g k) text ++ deliveries g ks text

-- In a reachable state the message of a registered client goes, unchanged, to every registered client
-- of its role's audience and to nobody else.
pub forward-eq-deliveries :
    {s : Server} (k : Role) (fd : ℕ) (text : Bytes)
    → Reach s
    → holder s.clients k ≡ some fd
    → forward s.clients fd text ≡ deliveries s.clients (audience k) text
unfolding forward
forward-eq-deliveries {s} role_a fd text r e =
    ground (arith, append-nil (send_if s.clients.client_c text))
forward-eq-deliveries {s} role_b fd text r e =
    ground
      (arith, append-nil (send_if s.clients.client_a text), (Reach-Inv r).unique role_a role_b fd)
forward-eq-deliveries {s} role_c fd text r e = ground (
  arith,
  append-nil (send_if s.clients.client_b text),
  (Reach-Inv r).unique role_a role_c fd,
  (Reach-Inv r).unique role_b role_c fd,
)

not_held-forward :
    (g : Clients) (fd : ℕ) (text : Bytes)
    → ((k : Role) → holder g k ≢ some fd)
    → forward g fd text ≡ []
unfolding forward
not_held-forward g fd text h = ground (arith, h role_a, h role_b, h role_c)

is_held : (o : Option ℕ) (fd : ℕ) → (o ≡ some fd) ⊎ (o ≢ some fd)
is_held none fd = inr (λ e. cc)
is_held (some x) fd = elim (Bool-cases (x == fd)) [
  | inl y ↦ inl (ap some ((==_iff x fd).0 y))
  | inr n ↦ inr (λ e. ground arith)
]

no_role :
    (g : Clients) (fd : ℕ)
    → g.client_a ≢ some fd
    → g.client_b ≢ some fd
    → g.client_c ≢ some fd
    → (k : Role) → holder g k ≢ some fd
no_role g fd na nb nc role_a = na
no_role g fd na nb nc role_b = nb
no_role g fd na nb nc role_c = nc

-- Where a message goes: to the audience of its sender's role; or, if its sender has none, nowhere.
abbrev pub Routes : Server → ℕ → Bytes → Type 0
Routes s fd text =
    ((k : Role) × (holder s.clients k ≡ some fd)
      × (forward s.clients fd text ≡ deliveries s.clients (audience k) text))
    ⊎ (((k : Role) → holder s.clients k ≢ some fd) × (forward s.clients fd text ≡ []))

-- In a reachable state a message of any connection goes, unchanged, to every registered client of the
-- audience of its sender's role, and to nobody else; and to nobody if the sender has no role.
pub forward-Routes : {s : Server} (fd : ℕ) (text : Bytes) → Reach s → Routes s fd text
forward-Routes {s} fd text r = elim (is_held s.clients.client_a fd) [
  | inl a ↦ inl (role_a, a, forward-eq-deliveries role_a fd text r a)
  | inr na ↦ elim (is_held s.clients.client_b fd) [
    | inl b ↦ inl (role_b, b, forward-eq-deliveries role_b fd text r b)
    | inr nb ↦ elim (is_held s.clients.client_c fd) [
      | inl c ↦ inl (role_c, c, forward-eq-deliveries role_c fd text r c)
      | inr nc ↦
          let nobody = no_role s.clients fd na nb nc in
          inr (nobody, not_held-forward s.clients fd text nobody)
    ]
  ]
]
