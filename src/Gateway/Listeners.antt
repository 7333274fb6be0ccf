-- ===== src/Gateway/Listeners.antt =====
-- The two FIFO threads of the gateway, and the functions that start and stop them.
use smart_home_weather_monit.Base.{
  ℕ, Bool, true, false, Option, none, some, List, [], ◌∷◌, ◌++◌, if◌then◌else◌, take,
}
use smart_home_weather_monit.Text.{Bytes, c_text}
use smart_home_weather_monit.ClientC.{Errno, eagain, eintr, other_error}
use smart_home_weather_monit.ClientC.Thread.{drop_newline}
use smart_home_weather_monit.Gateway.{
  Gateway, Action, fifo_listener, command_handler, directory_made, command_fifo_made,
  weather_fifo_made, fifo_closed, thread_created, thread_joined, slept_ms, act, send_if_connected,
}

-- What one `read` of a FIFO returns. Between two reads the program may ask the thread to stop.
pub data Read : Type 0 where
  got : Bytes → (sent : Bool) → Read  -- the bytes, and whether a `send` of them succeeds
  no_writer : Read  -- 0
  failed : Errno → Read  -- -1
  stop_asked : Read

-- The text in `buffer` without a newline at its end. With an empty text the source looks at the byte
-- before the buffer: `none`.
unfoldable pub command_text : Bytes → Option Bytes
unfolding drop_newline c_text
command_text msg = elim (c_text (take 1023 msg)) [
  | [] ↦ none
  | c ∷ cs ↦ some (drop_newline (c ∷ cs))
]

abbrev is_again : Errno → Bool
is_again eagain = true
is_again eintr = false
is_again (other_error n) = false

-- The loop of `command_handler_thread_func`; `none` is undefined behaviour.
unfoldable pub command_loop : Gateway → List Read → Option Gateway
unfolding command_text send_if_connected
command_loop g [] = some g
command_loop g (stop_asked ∷ rest) = some (record g { command_handler_running = false })
command_loop g (got msg ok ∷ rest) = elim (command_text msg) [
  | none ↦ none
  | some command ↦ command_loop (send_if_connected g command ok) rest
]
command_loop g (no_writer ∷ rest) = command_loop (act g (slept_ms 100 ∷ [])) rest
command_loop g (failed e ∷ rest) = elim (is_again e) [ true ↦ command_loop g rest | false ↦ some g ]

-- The directory and the FIFO are made if they are missing.
abbrev prepare : Bool → Bool → Action → List Action
prepare has_directory found made =
    (if has_directory then [] else directory_made ∷ []) ++ (if found then [] else made ∷ [])

pub record FifoEnv : Type 0 where
  pub has_directory : Bool
  pub found : Bool
  pub opened : Option ℕ  -- the descriptor of the FIFO

-- `command_handler_thread_func`
unfoldable pub command_handler_thread_func : FifoEnv → Gateway → List Read → Option Gateway
unfolding command_loop
command_handler_thread_func env g reads =
    let g' = act g (prepare env.has_directory env.found command_fifo_made) in
    elim env.opened [
      | none ↦ some g'
      | some fd ↦ elim (if g'.command_handler_running then command_loop g' reads else some g') [
        | none ↦ none
        | some last ↦ some (act last (fifo_closed fd ∷ []))
      ]
    ]

-- `close(weather_fifo_fd); weather_fifo_fd = -1`, if it is open.
abbrev pub close_weather_fifo : Gateway → Gateway
close_weather_fifo g = elim g.weather_fifo_fd [
  | none ↦ g
  | some fd ↦ record g { weather_fifo_fd = none; actions = g.actions ++ fifo_closed fd ∷ [] }
]

-- The loop of `fifo_listener_thread`, which only prints what it reads.
unfoldable pub listener_loop : Gateway → List Read → Option Gateway
unfolding command_text
listener_loop g [] = some g
listener_loop g (stop_asked ∷ rest) =
    some (close_weather_fifo (record g { fifo_listener_running = false }))
listener_loop g (got msg ok ∷ rest) = elim (command_text msg) [
  | none ↦ none
  | some text ↦ listener_loop g rest
]
listener_loop g (no_writer ∷ rest) = listener_loop (act g (slept_ms 100 ∷ [])) rest
listener_loop g (failed e ∷ rest) = elim (is_again e) [
  | true ↦ listener_loop g rest
  | false ↦ some g
]

-- `fifo_listener_thread`
unfoldable pub fifo_listener_thread : FifoEnv → Gateway → List Read → Option Gateway
unfolding listener_loop
fifo_listener_thread env g reads =
    let g' = act g (prepare env.has_directory env.found weather_fifo_made) in
    elim env.opened [
      | none ↦ some (record g' { weather_fifo_fd = none })
      | some fd ↦ elim (listener_loop (record g' { weather_fifo_fd = some fd }) reads) [
        | none ↦ none
        | some last ↦ some (close_weather_fifo last)
      ]
    ]

-- `start_fifo_listener`; a `pthread_create` that fails leaves the id of the thread as it was, and goes
-- unnoticed.
unfoldable pub start_fifo_listener : Gateway → (created : Bool) → Gateway
start_fifo_listener g created =
    if g.fifo_listener_running
    then g
    else if created
    then record g {
      fifo_listener_running = true;
      has_fifo_listener = true;
      actions = g.actions ++ thread_created fifo_listener ∷ [];
    }
    else record g { fifo_listener_running = true }

-- `start_command_handler_thread`, the same for its thread.
unfoldable pub start_command_handler_thread : Gateway → (created : Bool) → Gateway
start_command_handler_thread g created =
    if g.command_handler_running
    then g
    else if created
    then record g {
      command_handler_running = true;
      has_command_handler = true;
      actions = g.actions ++ thread_created command_handler ∷ [];
    }
    else record g { command_handler_running = true }

-- `stop_command_handler_thread`
unfoldable pub stop_command_handler_thread : Gateway → Gateway
stop_command_handler_thread g =
    if g.command_handler_running
    then (if g.has_command_handler
        then record g {
          command_handler_running = false;
          has_command_handler = false;
          actions = g.actions ++ thread_joined command_handler ∷ [];
        }
        else record g { command_handler_running = false })
    else g

-- `stop_fifo_listener`
unfoldable pub stop_fifo_listener : Gateway → Gateway
stop_fifo_listener g =
    if g.fifo_listener_running
    then (let g' = close_weather_fifo (record g { fifo_listener_running = false }) in
        if g'.has_fifo_listener
        then record g' {
          has_fifo_listener = false;
          actions = g'.actions ++ thread_joined fifo_listener ∷ [];
        }
        else g')
    else g
