-- ===== src/Gateway/Typed.antt =====
-- The reports of a whole run of the gateway's `main`.
use smart_home_weather_monit.Base.{
  Bool, ℕ, suc, ◌≡◌, refl, false, ◌&&◌, Option, none, some, List, [], ◌∷◌, ◌++◌, arith, is_some,
  if◌then◌else◌, All, All-append, Option-cases, Bool-cases, inl, inr,
}
use smart_home_weather_monit.Text.{Bytes}
use smart_home_weather_monit.Cjson.{Cjson}
use smart_home_weather_monit.ClientC.{client_c_start, client_c_stop, client_c_is_connected}
use smart_home_weather_monit.ClientC.Lifecycle.{on_both}
use smart_home_weather_monit.Gateway.{
  Gateway, Action, reported, connect_called, disconnect_called, destroy_called, slept_ms, act,
}
use smart_home_weather_monit.Gateway.Listeners.{
  start_fifo_listener, start_command_handler_thread, stop_fifo_listener,
  stop_command_handler_thread, close_weather_fifo,
}
use smart_home_weather_monit.Gateway.Settings.{
  set_connect_config, set_auth_config, set_my_callbacks,
}
use smart_home_weather_monit.Gateway.Reports.{Printer, services}
use smart_home_weather_monit.Gateway.Buffers.{properties_report_total}
use smart_home_weather_monit.Gateway.Schema.{IsTyped, services-IsReport}
use smart_home_weather_monit.Gateway.Main.{
  Round, Environment, Ended, looping, finished, freed_text, shared, main_loop, cleanup,
  prepare_client, run_started, gateway_main,
}
use smart_home_weather_monit.Gateway.Exit.{after_loop}

module _ (c : Cjson) (print : Printer) where
  abbrev pub AllTyped : Gateway → Type 0
  AllTyped g = All (IsTyped print) g.actions

  acts :
      (g : Gateway) (as' : List Action)
      → AllTyped g
      → All (IsTyped print) as'
      → AllTyped (act g as')
  acts g as' h k = All-append (IsTyped print) g.actions as' h k

  start_fifo_listener-AllTyped :
      (g : Gateway) (created : Bool) → AllTyped g → AllTyped (start_fifo_listener g created)
  unfolding start_fifo_listener
  start_fifo_listener-AllTyped g created h =
      on_both AllTyped g.fifo_listener_running _ _ h
        (on_both AllTyped created _ _ (acts g _ h (tt, tt)) h)

  start_handler-AllTyped :
      (g : Gateway) (created : Bool)
      → AllTyped g
      → AllTyped (start_command_handler_thread g created)
  unfolding start_command_handler_thread
  start_handler-AllTyped g created h =
      on_both AllTyped g.command_handler_running _ _ h
        (on_both AllTyped created _ _ (acts g _ h (tt, tt)) h)

  stop_handler-AllTyped : (g : Gateway) → AllTyped g → AllTyped (stop_command_handler_thread g)
  unfolding stop_command_handler_thread
  stop_handler-AllTyped g h =
      on_both AllTyped g.command_handler_running _ _
        (on_both AllTyped g.has_command_handler _ _ (acts g _ h (tt, tt)) h) h

  close_weather_fifo-AllTyped : (g : Gateway) → AllTyped g → AllTyped (close_weather_fifo g)
  close_weather_fifo-AllTyped g h = elim (Option-cases g.weather_fifo_fd) [
    | inl e ↦ rw e h
    | inr (fd, e) ↦ rw e (acts g _ h (tt, tt))
  ]

  stop_fifo_listener-AllTyped : (g : Gateway) → AllTyped g → AllTyped (stop_fifo_listener g)
  unfolding stop_fifo_listener
  stop_fifo_listener-AllTyped g h =
      let g' = close_weather_fifo (record g { fifo_listener_running = false }) in
      let h' = close_weather_fifo-AllTyped (record g { fifo_listener_running = false }) h in
      on_both AllTyped g.fifo_listener_running _ _
        (on_both AllTyped g'.has_fifo_listener _ _ (acts g' _ h' (tt, tt)) h') h

  set_auth_config-AllTyped : (g : Gateway) → AllTyped g → AllTyped (set_auth_config g)
  unfolding set_auth_config
  set_auth_config-AllTyped g h = elim (Option-cases g.username) [
    | inl e ↦ rw (e, set_auth_config) h
    | inr (user, e) ↦ elim (Option-cases g.password) [
      | inl p ↦ rw (e, set_auth_config) (rw (p, set_auth_config) h)
      | inr (pass, p) ↦
          rw (e, set_auth_config)
            (rw (p, set_auth_config)
              (acts g _ h (tt, (tt, (tt, (tt, (tt, (tt, (tt, (tt, tt))))))))))
    ]
  ]

  set_my_callbacks-AllTyped : (g : Gateway) → AllTyped g → AllTyped (set_my_callbacks g)
  unfolding set_my_callbacks
  set_my_callbacks-AllTyped g h = acts g _ h (omega arith)

  set_connect_config-AllTyped :
      (g : Gateway) (content : Option Bytes)
      → AllTyped g
      → AllTyped (set_connect_config c g content)
  unfolding set_connect_config
  set_connect_config-AllTyped g none h = h
  set_connect_config-AllTyped g (some content) h = elim (Option-cases (c.parse content)) [
    | inl e ↦ rw (e, set_connect_config) h
    | inr (json, e) ↦ rw (e, set_connect_config) h
  ]

  stopped-AllTyped :
      (g : Gateway) → AllTyped g → AllTyped (stop_fifo_listener (stop_command_handler_thread g))
  stopped-AllTyped g h =
      stop_fifo_listener-AllTyped (stop_command_handler_thread g) (stop_handler-AllTyped g h)

  freed_text-IsTyped : (t : Option Bytes) → All (IsTyped print) (freed_text c print t)
  freed_text-IsTyped none = tt
  freed_text-IsTyped (some t) = (tt, tt)

  cleanup-AllTyped : (g : Gateway) → AllTyped g → AllTyped (cleanup c print g)
  unfolding cleanup
  cleanup-AllTyped g h =
      let g1 = stop_fifo_listener (stop_command_handler_thread g) in
      let h1 = stopped-AllTyped g h in
      let off : Gateway = record g1 { client = client_c_stop g1.client } in
      let g2 : Gateway = if g1.client_c_initialized then off else g1 in
      let freed_all = freed_text c print g2.username ++ freed_text c print g2.password in
      acts g2 (disconnect_called ∷ destroy_called ∷ freed_all)
        (on_both AllTyped g1.client_c_initialized off g1 h1 h1)
        (
          tt,
          (
            tt,
            All-append (IsTyped print) (freed_text c print g2.username)
                (freed_text c print g2.password) (freed_text-IsTyped g2.username)
                (freed_text-IsTyped g2.password),
          ),
        )

  -- A loop that is defined and keeps the reports typed.
  abbrev LoopsTyped : Option (Gateway × Ended) → Type 0
  LoopsTyped r = (last : Gateway) × (ended : Ended) × (r ≡ some (last, ended)) × AllTyped last

  main_loop-LoopsTyped :
      (g : Gateway) (left : ℕ) (rs : List Round)
      → AllTyped g
      → LoopsTyped (main_loop c print g left rs)
  unfolding main_loop
  main_loop-LoopsTyped g ℕ.zero rs h = (g, finished, refl, h)
  main_loop-LoopsTyped g (suc left) [] h = (g, looping, refl, h)
  main_loop-LoopsTyped g (suc left) (r ∷ rs) h =
      let g1 = shared g r in
      elim (Bool-cases (client_c_is_connected r.client)) [
        | inl e ↦
            let (text, members, v, f) = properties_report_total c print r.report g1 in
            let report = reported (services print r.report g1 members) ∷ [] in
            let next = act (record g1 { last_weather = text }) report in
            let h' = acts g1 report h (services-IsReport print r.report g1 members v, tt) in
            rw (e, main_loop)
              (rw (f, main_loop)
                (main_loop-LoopsTyped (act next (slept_ms 5000 ∷ [])) left rs
                  (acts next _ h' (tt, tt))))
        | inr e ↦
            rw (e, main_loop)
              (main_loop-LoopsTyped (act g1 (slept_ms 2000 ∷ [])) (suc left) rs
                (acts g1 _ h (tt, tt)))
      ]

  -- A run that is defined, and all of whose reports are typed.
  abbrev pub Reports : Option (Gateway × Option ℕ) → Type 0
  Reports r = (last : Gateway) × (status : Option ℕ) × (r ≡ some (last, status)) × AllTyped last

  after_loop-Reports :
      (r : Option (Gateway × Ended)) → LoopsTyped r → Reports (after_loop c print r)
  after_loop-Reports r (last, looping, e, h) = rw e (last, none, refl, h)
  after_loop-Reports r (last, finished, e, h) =
      rw e (cleanup c print last, some 0, refl, cleanup-AllTyped last h)

  run_started-Reports :
      (env : Environment) (g : Gateway) → AllTyped g → Reports (run_started c print env g)
  unfolding run_started
  run_started-Reports env g h =
      let g0 = start_fifo_listener g env.creates_listener in
      let g1 = start_command_handler_thread g0 env.creates_handler in
      let h1 =
        start_handler-AllTyped g0 env.creates_handler
          (start_fifo_listener-AllTyped g env.creates_listener h) in
      let g2 = act (set_my_callbacks (set_auth_config g1)) (connect_called ∷ []) in
      let h2 =
        acts (set_my_callbacks (set_auth_config g1)) (connect_called ∷ [])
          (set_my_callbacks-AllTyped (set_auth_config g1) (set_auth_config-AllTyped g1 h1))
          (tt, tt) in
      on_both Reports env.sdk_starts _ _
        (on_both Reports env.sdk_connects _ _
          (after_loop-Reports (main_loop c print (act g2 (slept_ms 2000 ∷ [])) 10000 env.rounds) (
            main_loop-LoopsTyped (act g2 (slept_ms 2000 ∷ [])) 10000 env.rounds
              (acts g2 _ h2 (tt, tt))))
          (cleanup c print g2, some 0, refl, cleanup-AllTyped g2 h2))
        (cleanup c print g1, some 0, refl, cleanup-AllTyped g1 h1)

  prepare_client-AllTyped : (g : Gateway) → AllTyped g → AllTyped (prepare_client c print g)
  unfolding prepare_client
  prepare_client-AllTyped g h = h

  -- Whatever ClientConf.json, the FIFO, cJSON, the cloud and the other threads give in a run of `main` that
  -- starts without a report, the run is defined, and each report that it makes to the cloud has three
  -- services: the smoke detector with a number for the alarm, a concentration from 10.0 to 99.9, a
  -- temperature and a humidity below 100; the weather with five texts of at most 63, 63, 31, 31 and 5 bytes;
  -- and the control with a number for the LED and one for the buzzer.
  pub gateway_main-Reports :
      (env : Environment) (g : Gateway) → AllTyped g → Reports (gateway_main c print env g)
  unfolding gateway_main
  gateway_main-Reports env g h =
      let g1 = set_connect_config c g env.config in
      let h1 = set_connect_config-AllTyped g env.config h in
      let g2 = prepare_client c print g1 in
      let g3 : Gateway = record g2 { client = (client_c_start g2.client env.creates_thread).0 } in
      let h2 = prepare_client-AllTyped g1 h1 in
      on_both Reports (is_some g1.username && is_some g1.password) _ _
        (on_both Reports (client_c_start g2.client env.creates_thread).1 _ _
          (run_started-Reports env g3 h2) (g3, some 1, refl, h2))
        (g1, some 1, refl, h1)
