-- ===== src/Gateway/Exit.antt =====
-- The whole of the gateway's `main`: what it can meet, and what it leaves running.
use smart_home_weather_monit.Base.{
  ℕ, suc, ◌≡◌, true, false, Option, none, some, List, [], ◌∷◌, arith, is_some, leb, Bool-cases, inl,
  inr, if◌then◌else◌,
}
use smart_home_weather_monit.Cjson.{Cjson}
use smart_home_weather_monit.ClientC.{client_c_is_connected}
use smart_home_weather_monit.Gateway.{Gateway, Worker, reported, slept_ms, act}
use smart_home_weather_monit.Gateway.Reports.{Printer, services}
use smart_home_weather_monit.Gateway.Main.{
  Round, Ended, looping, finished, shared, main_loop, cleanup,
}
use smart_home_weather_monit.Gateway.Buffers.{properties_report_total}
use smart_home_weather_monit.Gateway.Threads.{Threads, alive}

-- Every FIFO thread that was created has been joined, the flags of both are off, and client C is not to run.
pub record IsStopped (g : Gateway) : Type 0 where
  pub joined : (w : Worker) → alive w false g.actions ≡ false
  pub handler : g.command_handler_running ≡ false
  pub listener : g.fifo_listener_running ≡ false
  pub client : g.client.tcp_running ≡ false

-- How a run of `main` has gone: it is defined, and if it has returned, everything is stopped.
abbrev pub Returns : Option (Gateway × Option ℕ) → Type 0
Returns r =
    (last : Gateway) × (status : Option ℕ) × (r ≡ some (last, status))
    × (is_some status ≡ true → IsStopped last)

-- The rounds in which client C is connected.
abbrev pub online_rounds : List Round → ℕ
online_rounds [] = 0
online_rounds (r ∷ rs) =
    if client_c_is_connected r.client then suc (online_rounds rs) else online_rounds rs

-- How the loop stands after these rounds, with so many reports left.
abbrev pub expected : ℕ → List Round → Ended
expected left rs = if leb left (online_rounds rs) then finished else looping

module _ (c : Cjson) (print : Printer) where
  -- A loop that is defined, keeps client C initialised, and has ended as said.
  abbrev pub Loops : Ended → Option (Gateway × Ended) → Type 0
  Loops ended r = (last : Gateway) × (r ≡ some (last, ended)) × (last.client_c_initialized ≡ true)

  -- With client C initialised, the main loop meets no undefined behaviour, whatever it reads and reports;
  -- and it ends exactly if client C is connected in at least as many rounds as there are reports left.
  -- Rounds in which client C is not connected do not count.
  pub main_loop-Loops :
      (g : Gateway) (left : ℕ) (rs : List Round)
      → g.client_c_initialized ≡ true
      → Loops (expected left rs) (main_loop c print g left rs)
  unfolding main_loop
  main_loop-Loops g ℕ.zero rs h = (g, ground arith, h)
  main_loop-Loops g (suc left) [] h = (g, ground arith, h)
  main_loop-Loops g (suc left) (r ∷ rs) h = elim (Bool-cases (client_c_is_connected r.client)) [
    | inl e ↦
        let g1 = shared g r in
        let (text, members, v, f) = properties_report_total c print r.report g1 in
        let next =
          act (record g1 { last_weather = text })
            (reported (services print r.report g1 members) ∷ []) in
        let (last, l, i) = main_loop-Loops (act next (slept_ms 5000 ∷ [])) left rs h in
        (last, rw (e, main_loop) (rw (f, main_loop) (ground (arith, e, l))), i)
    | inr e ↦
        let (last, l, i) =
          main_loop-Loops (act (shared g r) (slept_ms 2000 ∷ [])) (suc left) rs h in
        (last, rw (e, main_loop) (ground (arith, e, l)), i)
  ]

  -- What follows the main loop.
  abbrev pub after_loop : Option (Gateway × Ended) → Option (Gateway × Option ℕ)
  after_loop r = elim r [
    | none ↦ none
    | some (g, looping) ↦ some (g, none)
    | some (g, finished) ↦ some (cleanup c print g, some 0)
  ]
