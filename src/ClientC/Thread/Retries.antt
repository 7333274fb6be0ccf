-- ===== src/ClientC/Thread/Retries.antt =====
-- The retry limit of the connection loop.
use smart_home_weather_monit.Base.{
  ℕ, suc, ◌+◌, ◌<◌, ◌≡◌, Bool, true, Option, some, List, [], ◌∷◌, arith, length, All,
}
use smart_home_weather_monit.ClientC.{Client, error, Errno, client_c_start, update_state}
use smart_home_weather_monit.ClientC.Thread.{
  Attempt, no_socket, bad_address, refused, accepted, stop_between, Progress, left,
  tcp_connect_to_server, failed_round, thread_loop,
}

-- The attempt fails.
abbrev pub Fails : Attempt → Type 0
Fails (accepted fd ok recvs) = ⊥
Fails stop_between = ⊥
Fails _ = Unit

abbrev Errored : Option (Client × Progress) → Type 0
Errored r = (c : Client) × (r ≡ some (c, left)) × (c.state ≡ error) × (c.tcp_running ≡ true)

module _ (logged : Errno → Errno) where
  failed_round_running :
      (c : Client) (a : Attempt) (n : ℕ)
      → Fails a
      → c.tcp_running ≡ true
      → (failed_round logged (tcp_connect_to_server c a).0 n).tcp_running ≡ true
  unfolding failed_round tcp_connect_to_server
  failed_round_running c (no_socket e) n f r = ground arith
  failed_round_running c (bad_address fd) n f r = ground arith
  failed_round_running c (refused fd e) n f r = ground arith
  failed_round_running c (accepted fd ok recvs) n f r = absurd f
  failed_round_running c stop_between n f r = absurd f

  last_attempt :
      (c : Client) (a : Attempt) (rest : List Attempt)
      → Fails a
      → c.tcp_running ≡ true
      → Errored (thread_loop logged c 9 (a ∷ rest))
  unfolding thread_loop update_state tcp_connect_to_server
  last_attempt c (no_socket e) rest f r = (
    update_state (tcp_connect_to_server c (no_socket e)).0 error,
    ground arith,
    ground arith,
    ground arith,
  )
  last_attempt c (bad_address fd) rest f r = (
    update_state (tcp_connect_to_server c (bad_address fd)).0 error,
    ground arith,
    ground arith,
    ground arith,
  )
  last_attempt c (refused fd e) rest f r = (
    update_state (tcp_connect_to_server c (refused fd e)).0 error,
    ground arith,
    ground arith,
    ground arith,
  )
  last_attempt c (accepted fd ok recvs) rest f r = absurd f
  last_attempt c stop_between rest f r = absurd f

  next_attempt :
      (c : Client) (a : Attempt) (retry : ℕ) (rest : List Attempt)
      → Fails a
      → c.tcp_running ≡ true
      → suc retry < 10
      → thread_loop logged c retry (a ∷ rest)
        ≡ thread_loop logged
            (failed_round logged (tcp_connect_to_server c a).0 (suc retry))
            (suc retry)
            rest
  unfolding thread_loop
  next_attempt c (no_socket e) retry rest f r lt = ground arith
  next_attempt c (bad_address fd) retry rest f r lt = ground arith
  next_attempt c (refused fd e) retry rest f r lt = ground arith
  next_attempt c (accepted fd ok recvs) retry rest f r lt = absurd f
  next_attempt c stop_between retry rest f r lt = absurd f

  exhausted :
      (c : Client) (retry : ℕ) (a : Attempt) (rest : List Attempt)
      → retry + length rest ≡ 9
      → All Fails (a ∷ rest)
      → c.tcp_running ≡ true
      → Errored (thread_loop logged c retry (a ∷ rest))
  exhausted c retry a [] n f r = let e : retry ≡ 9 = omega arith in rw e (last_attempt c a [] f.0 r)
  exhausted c retry a (b ∷ rest) n f r =
      rw (next_attempt c a retry (b ∷ rest) f.0 r (omega arith)) (
        exhausted (failed_round logged (tcp_connect_to_server c a).0 (suc retry)) (suc retry) b rest
          (omega arith) f.1 (failed_round_running c a (suc retry) f.0 r))

  -- Ten failed attempts in a row end the thread in the error state, and leave `tcp_running` set: a later
  -- `client_c_start` changes nothing, creates no thread, and still reports success.
  pub ten_failures :
      (c : Client) (as' : List Attempt) (created : Bool)
      → length as' ≡ 10
      → All Fails as'
      → c.tcp_running ≡ true
      → (last : Client) × (thread_loop logged c 0 as' ≡ some (last, left))
        × (last.state ≡ error)
        × (client_c_start last created ≡ (last, true))
  unfolding client_c_start
  ten_failures c [] created n f r = absurd (omega arith)
  ten_failures c (a ∷ rest) created n f r =
      let (last, e, st, on) = exhausted c 0 a rest (omega arith) f r in (last, e, st, ground arith)
