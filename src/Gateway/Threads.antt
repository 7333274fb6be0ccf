-- ===== src/Gateway/Threads.antt =====
-- The two FIFO threads of the gateway in a run of main: when they are created, and whether they are joined.
pub mod Loop
use smart_home_weather_monit.Base.{
  ℕ, suc, ◌≡◌, refl, sym, ◌∙◌, Bool, true, false, Option, none, some, List, [], ◌∷◌, ◌++◌, arith,
  Bool-cases, Option-cases, inl, inr, if◌then◌else◌,
}
use smart_home_weather_monit.Text.{Bytes}
use smart_home_weather_monit.Cjson.{Cjson}
use smart_home_weather_monit.ClientC.{client_c_is_connected, client_c_stop}
use smart_home_weather_monit.ClientC.Lifecycle.{on_both}
use smart_home_weather_monit.Gateway.{
  Gateway, Action, Worker, fifo_listener, command_handler, thread_created, thread_joined,
  fifo_closed, reported, slept_ms, disconnect_called, destroy_called, act,
}
use smart_home_weather_monit.Gateway.Listeners.{
  start_fifo_listener, start_command_handler_thread, stop_fifo_listener,
  stop_command_handler_thread, close_weather_fifo,
}
use smart_home_weather_monit.Gateway.Settings.{
  set_connect_config, set_auth_config, set_my_callbacks,
}
use smart_home_weather_monit.Gateway.Reports.{Printer, services}
use smart_home_weather_monit.Gateway.Buffers.{properties_report_total}
use smart_home_weather_monit.Gateway.Main.{
  Round, Ended, looping, finished, freed_text, shared, main_loop, cleanup,
}

abbrev same_worker : Worker → Worker → Bool
same_worker fifo_listener fifo_listener = true
same_worker command_handler command_handler = true
same_worker _ _ = false

-- Whether a thread has been created and not joined since, after an action.
abbrev pub alive_after : Worker → Bool → Action → Bool
alive_after w b (thread_created v) = if same_worker v w then true else b
alive_after w b (thread_joined v) = if same_worker v w then false else b
alive_after w b _ = b

abbrev pub alive : Worker → Bool → List Action → Bool
alive w b [] = b
alive w b (a ∷ as') = alive w (alive_after w b a) as'

-- The ids of the threads are not 0 just for threads that are created and not joined, and the flags of these
-- are set.
pub record Threads (g : Gateway) : Type 0 where
  pub listener : alive fifo_listener false g.actions ≡ g.has_fifo_listener
  pub handler : alive command_handler false g.actions ≡ g.has_command_handler
  pub listener_runs : g.has_fifo_listener ≡ true → g.fifo_listener_running ≡ true
  pub handler_runs : g.has_command_handler ≡ true → g.command_handler_running ≡ true

alive-append :
    (w : Worker) (b : Bool) (xs ys : List Action) → alive w b (xs ++ ys) ≡ alive w (alive w b xs) ys
alive-append w b [] ys = refl
alive-append w b (x ∷ xs) ys = alive-append w (alive_after w b x) xs ys

-- Actions that create and join nothing.
abbrev pub Quiet : List Action → Type 0
Quiet as' = (w : Worker) (b : Bool) → alive w b as' ≡ b

pub act-Threads : (g : Gateway) (as' : List Action) → Quiet as' → Threads g → Threads (act g as')
act-Threads g as' q v = record {
  listener =
      alive-append fifo_listener false g.actions as'
      ∙ q fifo_listener (alive fifo_listener false g.actions)
      ∙ v.listener;
  handler =
      alive-append command_handler false g.actions as'
      ∙ q command_handler (alive command_handler false g.actions)
      ∙ v.handler;
  listener_runs = v.listener_runs;
  handler_runs = v.handler_runs;
}

pub start_fifo_listener-Threads :
    (g : Gateway) (created : Bool) → Threads g → Threads (start_fifo_listener g created)
unfolding start_fifo_listener
start_fifo_listener-Threads g created v = on_both Threads g.fifo_listener_running _ _ v (
    on_both Threads created _ _
      (record {
        listener = alive-append fifo_listener false g.actions (thread_created fifo_listener ∷ []);
        handler =
            alive-append command_handler false g.actions (thread_created fifo_listener ∷ [])
            ∙ v.handler;
        listener_runs = λ e. refl;
        handler_runs = v.handler_runs;
      })
      (record {
        listener = v.listener;
        handler = v.handler;
        listener_runs = λ e. refl;
        handler_runs = v.handler_runs;
      }))

pub start_handler-Threads :
    (g : Gateway) (created : Bool) → Threads g → Threads (start_command_handler_thread g created)
unfolding start_command_handler_thread
start_handler-Threads g created v = on_both Threads g.command_handler_running _ _ v (
    on_both Threads created _ _
      (record {
        listener =
            alive-append fifo_listener false g.actions (thread_created command_handler ∷ [])
            ∙ v.listener;
        handler =
            alive-append command_handler false g.actions (thread_created command_handler ∷ []);
        listener_runs = v.listener_runs;
        handler_runs = λ e. refl;
      })
      (record {
        listener = v.listener;
        handler = v.handler;
        listener_runs = v.listener_runs;
        handler_runs = λ e. refl;
      }))

-- A thread that a flag does not show is not there.
not_there : (has running : Bool) → (has ≡ true → running ≡ true) → running ≡ false → has ≡ false
not_there has running h off = ground (arith, h, off)

pub stop_handler-Threads :
    (g : Gateway)
    → Threads g
    → Threads (stop_command_handler_thread g)
      × ((stop_command_handler_thread g).has_command_handler ≡ false)
unfolding stop_command_handler_thread
stop_handler-Threads g v = elim (Bool-cases g.command_handler_running) [
  | inr off ↦
      rw (off, stop_command_handler_thread)
        (
          record {
            listener = v.listener;
            handler = v.handler;
            listener_runs = v.listener_runs;
            handler_runs = λ e. sym off ∙ v.handler_runs e;
          },
          not_there g.has_command_handler g.command_handler_running v.handler_runs off,
        )
  | inl on ↦ elim (Bool-cases g.has_command_handler) [
    | inl has ↦
        rw (on, stop_command_handler_thread)
          (rw (has, stop_command_handler_thread)
            (
              record {
                listener =
                    alive-append fifo_listener false g.actions (thread_joined command_handler ∷ [])
                    ∙ v.listener;
                handler =
                    alive-append command_handler false g.actions
                      (thread_joined command_handler ∷ []);
                listener_runs = v.listener_runs;
                handler_runs = λ e. cc;
              },
              refl,
            ))
    | inr has ↦
        rw (on, stop_command_handler_thread)
          (rw (has, stop_command_handler_thread)
            (
              record {
                listener = v.listener;
                handler = v.handler ∙ has;
                listener_runs = v.listener_runs;
                handler_runs = λ e. cc;
              },
              refl,
            ))
  ]
]

-- No thread is left, and no id of one.
pub record AllJoined (g : Gateway) : Type 0 where
  pub threads : Threads g
  pub no_listener : g.has_fifo_listener ≡ false
  pub no_handler : g.has_command_handler ≡ false

join_listener :
    (g : Gateway)
    → alive command_handler false g.actions ≡ g.has_command_handler
    → g.has_command_handler ≡ false
    → AllJoined (record g {
      has_fifo_listener = false;
      actions = g.actions ++ thread_joined fifo_listener ∷ [];
    })
join_listener g h none_left = record {
  threads = record {
    listener = alive-append fifo_listener false g.actions (thread_joined fifo_listener ∷ []);
    handler = alive-append command_handler false g.actions (thread_joined fifo_listener ∷ []) ∙ h;
    listener_runs = λ e. cc;
    handler_runs = λ e. ground (arith, none_left, e);
  };
  no_listener = refl;
  no_handler = none_left;
}

close_weather_fifo-ids :
    (g : Gateway)
    → ((close_weather_fifo g).has_fifo_listener ≡ g.has_fifo_listener)
      × ((close_weather_fifo g).has_command_handler ≡ g.has_command_handler)
      × ((close_weather_fifo g).command_handler_running ≡ g.command_handler_running)
      × (alive command_handler false (close_weather_fifo g).actions
          ≡ alive command_handler false g.actions)
      × (alive fifo_listener false (close_weather_fifo g).actions
          ≡ alive fifo_listener false g.actions)
close_weather_fifo-ids g = elim (Option-cases g.weather_fifo_fd) [
  | inl e ↦ rw e (refl, refl, refl, refl, refl)
  | inr (fd, e) ↦ rw e (
    refl,
    refl,
    refl,
    alive-append command_handler false g.actions (fifo_closed fd ∷ []),
    alive-append fifo_listener false g.actions (fifo_closed fd ∷ []),
  )
]

pub stop_listener-AllJoined :
    (g : Gateway) → Threads g → g.has_command_handler ≡ false → AllJoined (stop_fifo_listener g)
unfolding stop_fifo_listener
stop_listener-AllJoined g v none_left = elim (Bool-cases g.fifo_listener_running) [
  | inr off ↦
      rw (off, stop_fifo_listener)
        (record {
          threads = record {
            listener = v.listener;
            handler = v.handler;
            listener_runs = λ e. sym off ∙ v.listener_runs e;
            handler_runs = v.handler_runs;
          };
          no_listener = not_there g.has_fifo_listener g.fifo_listener_running v.listener_runs off;
          no_handler = none_left;
        })
  | inl on ↦
      let g' = close_weather_fifo (record g { fifo_listener_running = false }) in
      let (f, h, r, k, l) = close_weather_fifo-ids (record g { fifo_listener_running = false }) in
      rw (on, stop_fifo_listener)
        (elim (Bool-cases g'.has_fifo_listener) [
          | inl has ↦
              rw (has, stop_fifo_listener)
                (join_listener g' (k ∙ v.handler ∙ sym h) (h ∙ none_left))
          | inr has ↦
              rw (has, stop_fifo_listener)
                (record {
                  threads = record {
                    listener = l ∙ v.listener ∙ sym f ∙ has;
                    handler = k ∙ v.handler ∙ sym h;
                    listener_runs = λ e. cc;
                    handler_runs = λ e. ground (arith, h, none_left, e);
                  };
                  no_listener = refl;
                  no_handler = h ∙ none_left;
                })
        ])
]

-- What `set_connect_config`, `set_auth_config` and `set_my_callbacks` do leaves the threads alone.
pub set_auth_config-Threads : (g : Gateway) → Threads g → Threads (set_auth_config g)
unfolding set_auth_config
set_auth_config-Threads g v = elim (Option-cases g.username) [
  | inl e ↦ rw (e, set_auth_config) v
  | inr (user, e) ↦ elim (Option-cases g.password) [
    | inl p ↦ rw (e, set_auth_config) (rw (p, set_auth_config) v)
    | inr (pass, p) ↦
        rw (e, set_auth_config) (rw (p, set_auth_config) (act-Threads g _ (λ w b. refl) v))
  ]
]

pub set_my_callbacks-Threads : (g : Gateway) → Threads g → Threads (set_my_callbacks g)
unfolding set_my_callbacks
set_my_callbacks-Threads g v = act-Threads g _ (λ w b. refl) v
