-- ===== src/Server/Invariant.antt =====
-- Which thread stands behind a registered descriptor, and how many roles it has.
use smart_home_weather_monit.Base.{ℕ, ◌≡◌, refl, Option, none, some, List, arith}
use smart_home_weather_monit.Text.{Bytes}
use smart_home_weather_monit.Server.{Clients, Action, identify, unregister}
use smart_home_weather_monit.Server.Threads.{
  Phase, identifying, confirming, serving, closing, Server, update, started, registered, Step,
  accepts, spawn_fails, no_identity, identifies, confirms, forwards, loses, closes, Reach, start,
  later,
}

pub data Role : Type 0 where
  role_a role_b role_c : Role

-- Who is registered in a role.
abbrev pub holder : Clients → Role → Option ℕ
holder g role_a = g.client_a
holder g role_b = g.client_b
holder g role_c = g.client_c

-- The thread still works for its client.
abbrev pub IsLive : Option Phase → Type 0
IsLive (some confirming) = Unit
IsLive (some serving) = Unit
IsLive _ = ⊥

pub record Inv (s : Server) : Type 0 where
  pub live : (k : Role) (fd : ℕ) → holder s.clients k ≡ some fd → IsLive (s.phase fd)
  pub unique :
      (j k : Role) (fd : ℕ) → holder s.clients j ≡ some fd → holder s.clients k ≡ some fd → j ≡ k

started-Inv : Inv started
started-Inv = record {
  live = λ k fd e. absurd (none_held k fd e);
  unique = λ j k fd e f. absurd (none_held j fd e);
}
  where
    none_held : (k : Role) (fd : ℕ) → holder started.clients k ≡ some fd → ⊥
    none_held role_a fd e = cc
    none_held role_b fd e = cc
    none_held role_c fd e = cc

module _ {s : Server} (inv : Inv s) (fd : ℕ) where
  -- A descriptor whose thread is not live has no role, and gets none by a change of its phase.
  idle-Inv :
      (p : Option Phase)
      → (IsLive (s.phase fd) → IsLive p)
      → Inv (record s { phase = update s.phase fd p })
  idle-Inv p keep = record {
    live = λ k i e. grind (arith, inv.live k i e, keep);
    unique = inv.unique;
  }

  registered-IsLive :
      (text : Bytes)
      → s.phase fd ≡ some identifying
      → (k : Role) (i : ℕ) → holder (registered s fd text).clients k ≡ some i
      → IsLive ((registered s fd text).phase i)
  unfolding identify
  registered-IsLive text e role_a i h = ground (arith, inv.live role_a i)
  registered-IsLive text e role_b i h = ground (arith, inv.live role_b i)
  registered-IsLive text e role_c i h = ground (arith, inv.live role_c i)

  registered_unique :
      (text : Bytes)
      → s.phase fd ≡ some identifying
      → (j k : Role) (i : ℕ) → holder (registered s fd text).clients j ≡ some i
      → holder (registered s fd text).clients k ≡ some i
      → j ≡ k
  unfolding identify
  registered_unique text e role_a role_a i h h' = refl
  registered_unique text e j k i h h' = ground (arith, inv.unique j k i, inv.live j i, inv.live k i)

  pub registered-Inv : (text : Bytes) → s.phase fd ≡ some identifying → Inv (registered s fd text)
  registered-Inv text e = record {
    live = registered-IsLive text e;
    unique = registered_unique text e;
  }

  lost : Server
  lost = record { clients = unregister s.clients fd; phase = update s.phase fd (some closing) }

  lost-IsLive : (k : Role) (i : ℕ) → holder lost.clients k ≡ some i → IsLive (lost.phase i)
  unfolding lost unregister
  lost-IsLive role_a i h =
      ground (arith, inv.live role_a i, inv.unique role_a role_b fd, inv.unique role_a role_c fd)
  lost-IsLive role_b i h =
      ground (arith, inv.live role_b i, inv.unique role_a role_b fd, inv.unique role_b role_c fd)
  lost-IsLive role_c i h =
      ground (arith, inv.live role_c i, inv.unique role_a role_c fd, inv.unique role_b role_c fd)

  lost_unique :
      (j k : Role) (i : ℕ) → holder lost.clients j ≡ some i → holder lost.clients k ≡ some i → j ≡ k
  unfolding lost unregister
  lost_unique role_a role_a i h h' = refl
  lost_unique j k i h h' = ground (arith, inv.unique j k i)

  loses-Inv : Inv lost
  loses-Inv = record { live = lost-IsLive; unique = lost_unique }

-- Every step keeps the invariant.
Step-Inv : {s t : Server} {acts : List Action} → Step s acts t → Inv s → Inv t
unfolding lost
Step-Inv (accepts fd e) inv = idle-Inv inv fd (some identifying) (λ h. ground arith)
Step-Inv (spawn_fails fd e) inv = inv
Step-Inv (no_identity fd e) inv = idle-Inv inv fd none (λ h. ground arith)
Step-Inv (identifies fd msg text e r) inv = registered-Inv inv fd text e
Step-Inv (confirms fd e) inv = idle-Inv inv fd (some serving) (λ h. tt)
Step-Inv (forwards fd msg text e r) inv = inv
Step-Inv (loses fd e) inv = loses-Inv inv fd
Step-Inv (closes fd e) inv = idle-Inv inv fd none (λ h. ground arith)

-- In every reachable state of the server, each registered descriptor belongs to a thread that still
-- works for its client, and no descriptor is registered in two roles.
pub Reach-Inv : {s : Server} → Reach s → Inv s
Reach-Inv start = started-Inv
Reach-Inv (later acts r st) = Step-Inv st (Reach-Inv r)
