-- ===== src/Gateway/Main.antt =====
-- `main` of the gateway: start, main loop, clean-up.
use smart_home_weather_monit.Base.{
  ℕ, suc, ◌≡◌, Bool, true, false, ◌&&◌, Option, none, some, List, [], ◌∷◌, ◌++◌, arith, is_some,
  if◌then◌else◌, ◌⊎◌,
}
use smart_home_weather_monit.Base.Int.{ℤ, pos}
use smart_home_weather_monit.Text.{Bytes, bytes}
use smart_home_weather_monit.Cjson.{Cjson}
use smart_home_weather_monit.ClientC.{
  Client, ConfigArgument, client_c_init, client_c_set_debug, client_c_start, client_c_stop,
  client_c_is_connected,
}
use smart_home_weather_monit.Gateway.{
  Gateway, Action, connect_called, disconnect_called, destroy_called, slept_ms, freed, act,
}
use smart_home_weather_monit.Gateway.Listeners.{
  start_fifo_listener, start_command_handler_thread, stop_command_handler_thread,
  stop_fifo_listener,
}
use smart_home_weather_monit.Gateway.Settings.{
  set_connect_config, set_auth_config, set_my_callbacks,
}
use smart_home_weather_monit.Gateway.Reports.{Printer, ReportEnv, properties_report}

-- `client_c_config`; the status callback is function 1.
abbrev pub client_c_config : ConfigArgument
client_c_config = record {
  server_ip = some (bytes "192.168.16.181");
  server_port = pos 60000;
  client_id = some (bytes "CLIENT_C");
  weather_callback = none;
  command_callback = none;
  status_callback = some 1;
}

-- One round of the main loop: client C as its thread and the command handler have left it, the devices as
-- the callbacks of the cloud have left them, and what the report meets.
pub record Round : Type 0 where
  pub client : Client
  pub alarm_value : ℤ
  pub led_status : ℤ
  pub buzzer_status : ℤ
  pub report : ReportEnv

-- What the other threads have changed when a round starts.
abbrev pub shared : Gateway → Round → Gateway
shared g r = record g {
  alarm_value = r.alarm_value;
  led_status = r.led_status;
  buzzer_status = r.buzzer_status;
  client = r.client;
}

-- What `main` is given: the content of ClientConf.json, whether the thread of client C and the two
-- FIFO threads can be created, and what `IOTA_Init` and `IOTA_Connect` return (true is success).
pub record Environment : Type 0 where
  pub config : Option Bytes
  pub creates_thread : Bool
  pub creates_listener : Bool
  pub creates_handler : Bool
  pub sdk_starts : Bool
  pub sdk_connects : Bool
  pub rounds : List Round

pub data Ended : Type 0 where
  looping : Ended  -- the rounds have ended before the count
  finished : Ended

module _ (c : Cjson) (print : Printer) where
  -- The rest of the main loop: `left` is 10000 - count.
  unfoldable pub main_loop : Gateway → ℕ → List Round → Option (Gateway × Ended)
  main_loop g ℕ.zero rs = some (g, finished)
  main_loop g (suc left) [] = some (g, looping)
  main_loop g (suc left) (r ∷ rs) = elim (client_c_is_connected r.client) [
    | false ↦ main_loop (act (shared g r) (slept_ms 2000 ∷ [])) (suc left) rs
    | true ↦ elim (properties_report c print r.report (shared g r)) [
      | none ↦ none
      | some next ↦ main_loop (act next (slept_ms 5000 ∷ [])) left rs
    ]
  ]

  abbrev pub freed_text : Option Bytes → List Action
  freed_text none = []
  freed_text (some t) = freed t ∷ []

  -- From the label `cleanup` on. Client C is told to stop; its detached thread is not waited for.
  unfoldable pub cleanup : Gateway → Gateway
  unfolding stop_command_handler_thread stop_fifo_listener client_c_stop
  cleanup g =
      let g1 = stop_fifo_listener (stop_command_handler_thread g) in
      let g2 : Gateway =
        if g1.client_c_initialized then record g1 { client = client_c_stop g1.client } else g1 in
      act g2
        (disconnect_called ∷ destroy_called ∷ (freed_text g2.username ++ freed_text g2.password))

  -- Client C initialised, with debugging on.
  unfoldable pub prepare_client : Gateway → Gateway
  unfolding client_c_init client_c_set_debug
  prepare_client g = record g {
    client_c_initialized = true;
    client = client_c_set_debug (client_c_init g.client (some client_c_config)).0 true;
  }

  -- Behind a started client C: the listeners, the SDK, the loop.
  unfoldable pub run_started : Environment → Gateway → Option (Gateway × Option ℕ)
  unfolding main_loop cleanup start_fifo_listener start_command_handler_thread set_auth_config
      set_my_callbacks
  run_started env g =
      let g1 =
        start_command_handler_thread (start_fifo_listener g env.creates_listener)
          env.creates_handler in
      if env.sdk_starts
      then (let g2 = act (set_my_callbacks (set_auth_config g1)) (connect_called ∷ []) in
          if env.sdk_connects
          then elim (main_loop (act g2 (slept_ms 2000 ∷ [])) 10000 env.rounds) [
            | none ↦ none
            | some (g3, looping) ↦ some (g3, none)
            | some (g3, finished) ↦ some (cleanup g3, some 0)
          ]
          else some (cleanup g2, some 0))
      else some (cleanup g1, some 0)

  -- `main`: the last state, and the exit status unless it still loops; `none` is undefined behaviour.
  unfoldable pub gateway_main : Environment → Gateway → Option (Gateway × Option ℕ)
  unfolding run_started prepare_client set_connect_config client_c_start
  gateway_main env g =
      let g1 = set_connect_config c g env.config in
      if is_some g1.username && is_some g1.password
      then (let g2 = prepare_client g1 in
          let g3 : Gateway = record g2 {
            client = (client_c_start g2.client env.creates_thread).0;
          } in
          if (client_c_start g2.client env.creates_thread).1
          then run_started env g3
          else some (g3, some 1))
      else some (g1, some 1)

  -- Whatever state the clean-up finds, with client C initialised, it leaves the flags of the two FIFO threads
  -- and of client C off, and, if that of client C was on, no socket.
  pub cleanup_stops :
      (g : Gateway)
      → g.client_c_initialized ≡ true
      → ((cleanup g).command_handler_running ≡ false)
        × ((cleanup g).fifo_listener_running ≡ false)
        × ((cleanup g).client.tcp_running ≡ false)
        × ((g.client.tcp_running ≡ false) ⊎ ((cleanup g).client.tcp_socket ≡ none))
  unfolding cleanup
  cleanup_stops g init = ground arith
