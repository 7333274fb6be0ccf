-- ===== src/Server/Identity.antt =====
-- What client A is told when connections register.
use smart_home_weather_monit.Base.{ℕ, ◌≡◌, ◌≢◌, refl, some, List, [], ◌∷◌, arith, ◌⊎◌}
use smart_home_weather_monit.Text.{Bytes}
use smart_home_weather_monit.Server.{Clients, Action, sent, identify, b_connected, c_connected}
use smart_home_weather_monit.Server.Invariant.{Role, role_a, role_b, role_c, holder}

-- The action is one of the list's.
abbrev pub Has : Action → List Action → Type 0
Has x [] = ⊥
Has x (y ∷ ys) = (y ≡ x) ⊎ Has x ys

-- What A is told when a client of the role is there.
abbrev pub news : Role → Bytes
news role_a = []
news role_b = b_connected
news role_c = c_connected

-- When a connection registers, and clients A and B are then both there, one of them new, A is told of
-- B by this step; so it is for A and C.
pub identify_tells :
    (g : Clients) (fd : ℕ) (text : Bytes) (k : Role) (a x : ℕ)
    → k ≢ role_a
    → holder (identify g fd text).clients role_a ≡ some a
    → holder (identify g fd text).clients k ≡ some x
    → (holder g role_a ≢ some a) ⊎ (holder g k ≢ some x)
    → Has (sent a (news k)) (identify g fd text).actions
unfolding identify
identify_tells g fd text role_a a x other ha hx new = absurd (other refl)
identify_tells g fd text role_b a x other ha hx new = ground arith
identify_tells g fd text role_c a x other ha hx new = ground arith
