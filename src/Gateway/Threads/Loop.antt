-- ===== src/Gateway/Threads/Loop.antt =====
-- The threads of the gateway through the main loop and the clean-up.
use smart_home_weather_monit.Base.{
  ℕ, suc, ◌≡◌, refl, ◌∙◌, true, false, Option, none, some, List, [], ◌∷◌, ◌++◌, Bool-cases,
  Option-cases, inl, inr, if◌then◌else◌,
}
use smart_home_weather_monit.Text.{Bytes}
use smart_home_weather_monit.Cjson.{Cjson}
use smart_home_weather_monit.ClientC.{client_c_is_connected, client_c_stop}
use smart_home_weather_monit.ClientC.Lifecycle.{on_both}
use smart_home_weather_monit.Gateway.{
  Gateway, Action, Worker, fifo_listener, command_handler, reported, slept_ms, disconnect_called,
  destroy_called, act,
}
use smart_home_weather_monit.Gateway.Listeners.{stop_fifo_listener, stop_command_handler_thread}
use smart_home_weather_monit.Gateway.Settings.{set_connect_config}
use smart_home_weather_monit.Gateway.Reports.{Printer, services}
use smart_home_weather_monit.Gateway.Buffers.{properties_report_total}
use smart_home_weather_monit.Gateway.Main.{
  Round, Ended, looping, finished, freed_text, shared, main_loop, cleanup,
}
use smart_home_weather_monit.Gateway.Threads.{
  Quiet, AllJoined, Threads, alive, act-Threads, stop_handler-Threads, stop_listener-AllJoined,
}

module _ (c : Cjson) (print : Printer) where
  pub set_connect_config-Threads :
      (g : Gateway) (content : Option Bytes) → Threads g → Threads (set_connect_config c g content)
  unfolding set_connect_config
  set_connect_config-Threads g none v = v
  set_connect_config-Threads g (some content) v = elim (Option-cases (c.parse content)) [
    | inl e ↦ rw (e, set_connect_config) v
    | inr (json, e) ↦
        rw (e, set_connect_config)
          (record {
            listener = v.listener;
            handler = v.handler;
            listener_runs = v.listener_runs;
            handler_runs = v.handler_runs;
          })
  ]

  freed-Quiet :
      (x y : Option Bytes)
      → Quiet (disconnect_called ∷ destroy_called ∷ (freed_text c print x ++ freed_text c print y))
  freed-Quiet none none = λ w b. refl
  freed-Quiet none (some t) = λ w b. refl
  freed-Quiet (some t) none = λ w b. refl
  freed-Quiet (some t) (some u) = λ w b. refl

  act-AllJoined :
      (g : Gateway) (as' : List Action) → Quiet as' → AllJoined g → AllJoined (act g as')
  act-AllJoined g as' q v = record {
    threads = act-Threads g as' q v.threads;
    no_listener = v.no_listener;
    no_handler = v.no_handler;
  }

  cleanup-AllJoined : (g : Gateway) → Threads g → AllJoined (cleanup c print g)
  unfolding cleanup
  cleanup-AllJoined g v =
      let (v1, none_left) = stop_handler-Threads g v in
      let g1 = stop_fifo_listener (stop_command_handler_thread g) in
      let j = stop_listener-AllJoined (stop_command_handler_thread g) v1 none_left in
      let off : Gateway = record g1 { client = client_c_stop g1.client } in
      let g2 : Gateway = if g1.client_c_initialized then off else g1 in
      let t : Threads off = record {
        listener = j.threads.listener;
        handler = j.threads.handler;
        listener_runs = j.threads.listener_runs;
        handler_runs = j.threads.handler_runs;
      } in
      let j' : AllJoined off = record {
        threads = t;
        no_listener = j.no_listener;
        no_handler = j.no_handler;
      } in
      act-AllJoined g2 _ (freed-Quiet g2.username g2.password)
        (on_both AllJoined g1.client_c_initialized off g1 j' j)

  -- The clean-up joins every thread that was created.
  pub cleanup_joins :
      (g : Gateway) → Threads g → (w : Worker) → alive w false (cleanup c print g).actions ≡ false
  cleanup_joins g v fifo_listener =
      let j = cleanup-AllJoined g v in j.threads.listener ∙ j.no_listener
  cleanup_joins g v command_handler =
      let j = cleanup-AllJoined g v in j.threads.handler ∙ j.no_handler

  shared-Threads : (g : Gateway) (r : Round) → Threads g → Threads (shared g r)
  shared-Threads g r v = record {
    listener = v.listener;
    handler = v.handler;
    listener_runs = v.listener_runs;
    handler_runs = v.handler_runs;
  }

  reported-Threads :
      (g : Gateway) (text : Bytes) (xs : List (Bytes × Option Bytes))
      → Threads g
      → Threads (act (record g { last_weather = text }) (reported xs ∷ []))
  reported-Threads g text xs v = record {
    listener = (act-Threads g (reported xs ∷ []) (λ w b. refl) v).listener;
    handler = (act-Threads g (reported xs ∷ []) (λ w b. refl) v).handler;
    listener_runs = v.listener_runs;
    handler_runs = v.handler_runs;
  }

  -- A loop that is defined, and leaves client C initialised and the threads as they are.
  abbrev pub Keeps : Option (Gateway × Ended) → Type 0
  Keeps r =
      (last : Gateway) × (ended : Ended) × (r ≡ some (last, ended))
      × (last.client_c_initialized ≡ true)
      × Threads last

  pub main_loop-Keeps :
      (g : Gateway) (left : ℕ) (rs : List Round)
      → g.client_c_initialized ≡ true
      → Threads g
      → Keeps (main_loop c print g left rs)
  unfolding main_loop
  main_loop-Keeps g ℕ.zero rs h v = (g, finished, refl, h, v)
  main_loop-Keeps g (suc left) [] h v = (g, looping, refl, h, v)
  main_loop-Keeps g (suc left) (r ∷ rs) h v =
      let g1 = shared g r in
      let v1 = shared-Threads g r v in
      elim (Bool-cases (client_c_is_connected r.client)) [
        | inl e ↦
            let (text, members, w, f) = properties_report_total c print r.report g1 in
            let xs = services print r.report g1 members in
            let next = act (record g1 { last_weather = text }) (reported xs ∷ []) in
            rw (e, main_loop)
              (rw (f, main_loop)
                (main_loop-Keeps (act next (slept_ms 5000 ∷ [])) left rs h (
                  act-Threads next (slept_ms 5000 ∷ []) (λ w b. refl)
                    (reported-Threads g1 text xs v1))))
        | inr e ↦
            rw (e, main_loop)
              (main_loop-Keeps (act g1 (slept_ms 2000 ∷ [])) (suc left) rs h
                (act-Threads g1 (slept_ms 2000 ∷ []) (λ w b. refl) v1))
      ]
