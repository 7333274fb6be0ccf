-- ===== src/ClientC/Thread.antt =====
-- The TCP thread of client C: connecting with retries, the identity, and the loop over messages. What the
-- network does is a script: a list of connection attempts, each with what its `recv` calls return. Where a
-- script ends the thread has not got further.
pub mod Stuck
pub mod Retries
pub mod Receiving
pub mod Rounds
pub mod Sockets
use smart_home_weather_monit.Base.{
  ℕ, suc, ◌+◌, Bool, true, false, not, ◌&&◌, ◌||◌, Option, none, some, List, [], ◌∷◌, ◌++◌, ltb,
  ◌==◌, if◌then◌else◌, is_some, take,
}
use smart_home_weather_monit.Text.{Bytes, bytes, c_text}
use smart_home_weather_monit.ClientC.{
  Client, State, disconnected, connecting, connected, error, Errno, eagain, eintr, other_error,
  Event, sent, opened, closed, slept, emit, update_state, client_c_stop, tcp_disconnect,
}
use smart_home_weather_monit.ClientC.Messages.{Fifos, parse_and_handle_message}

-- What one call of `recv` does.
pub data Recv : Type 0 where
  -- bytes arrive; the FIFOs as they are then, and what the handling leaves in `errno`
  message : Bytes → Fifos → Errno → Recv
  end_of_stream : Recv  -- 0: the server has closed
  failed : Errno → Recv  -- -1
  stopped : Recv  -- `client_c_stop` runs meanwhile, and its `shutdown` makes `recv` return 0

-- One attempt to connect, with the socket that it opens, or a call of `client_c_stop` by another thread
-- between two rounds.
pub data Attempt : Type 0 where
  no_socket : Errno → Attempt
  bad_address : (fd : ℕ) → Attempt
  refused : (fd : ℕ) → Errno → Attempt
  accepted : (fd : ℕ) → (identity_sent : Bool) → List Recv → Attempt
  stop_between : Attempt

-- The text of a message: at most 4095 bytes, without a newline at its end, up to a NUL.
unfoldable pub drop_newline : Bytes → Bytes
drop_newline [] = []
drop_newline (c ∷ []) = if c == b'\n' then [] else c ∷ []
drop_newline (c ∷ d ∷ cs) = c ∷ drop_newline (d ∷ cs)

unfoldable pub message_text : Bytes → Bytes
unfolding drop_newline c_text
message_text msg = c_text (drop_newline (take 4095 msg))

abbrev pub is_retryable : Errno → Bool
is_retryable eagain = true
is_retryable eintr = true
is_retryable (other_error n) = false

pub data Progress : Type 0 where
  waiting : Progress  -- the script has ended first
  left : Progress

-- `tcp_connect_to_server`
unfoldable pub tcp_connect_to_server : Client → Attempt → Client × Bool
unfolding update_state
tcp_connect_to_server c (no_socket e) = (record c { tcp_socket = none; errno = e }, false)
tcp_connect_to_server c (bad_address fd) =
    (emit (emit (record c { tcp_socket = none }) (opened fd)) (closed fd), false)
tcp_connect_to_server c (refused fd e) =
    (emit (emit (record c { tcp_socket = none; errno = e }) (opened fd)) (closed fd), false)
tcp_connect_to_server c stop_between = (c, false)
tcp_connect_to_server c (accepted fd ok recvs) =
    (update_state (emit (record c { tcp_socket = some fd }) (opened fd)) connected, true)

-- `logged` is what a call of the log function leaves in `errno`.
module _ (logged : Errno → Errno) where
  abbrev log : Client → Client
  log c = record c { errno = logged c.errno }

  -- `tcp_receive_message` on an open socket: the text, or `none` for its result false.
  unfoldable pub tcp_receive_message : Client → Recv → Client × Option Bytes
  unfolding message_text client_c_stop
  tcp_receive_message c (message msg fifos e) = (c, some (message_text msg))
  tcp_receive_message c end_of_stream = (log c, none)
  tcp_receive_message c (failed e) =
      (if is_retryable e then record c { errno = e } else log (record c { errno = e }), none)
  tcp_receive_message c stopped = (log (client_c_stop c), none)

  -- The handling of what was received; `none` is undefined behaviour.
  unfoldable pub handle_received : Client → Recv → Option Client
  unfolding parse_and_handle_message
  handle_received c (message msg fifos e) =
      elim (parse_and_handle_message fifos c (some (message_text msg))) [
        | none ↦ none
        | some next ↦ some (record next { errno = e })
      ]
  handle_received c _ = some c

  -- The loop `while (tcp_running && tcp_socket >= 0)`.
  unfoldable pub message_loop : Client → List Recv → Option (Client × Progress)
  unfolding tcp_receive_message handle_received
  message_loop c [] = some (c, if c.tcp_running && is_some c.tcp_socket then waiting else left)
  message_loop c (r ∷ rs) = elim (c.tcp_running && is_some c.tcp_socket) [
    | false ↦ some (c, left)
    | true ↦ elim (tcp_receive_message c r).1 [
      | some text ↦ elim (handle_received (tcp_receive_message c r).0 r) [
        | none ↦ none
        | some next ↦ message_loop next rs
      ]
      | none ↦ elim (is_retryable (tcp_receive_message c r).0.errno) [
        | true ↦ message_loop (tcp_receive_message c r).0 rs
        | false ↦ some (log (tcp_receive_message c r).0, left)
      ]
    ]
  ]

  abbrev pub max_retries : ℕ
  max_retries = 10

  -- `tcp_send_identity` on the socket of the attempt.
  unfoldable pub tcp_send_identity : Client → Bool → Client
  tcp_send_identity c false = c
  tcp_send_identity c true = elim c.tcp_socket [
    | none ↦ c
    | some fd ↦ emit c (sent fd (bytes "CLIENT_C"))
  ]

  -- The end of a round: disconnect, and wait two seconds if still running.
  unfoldable pub end_round : Client → Client
  unfolding tcp_disconnect
  end_round c = let c' = tcp_disconnect c in if c'.tcp_running then emit c' (slept 2) else c'

  -- A round whose connection succeeds: the client and how far the round got.
  unfoldable pub connected_round : Client → Bool → List Recv → Option (Client × Progress)
  unfolding message_loop tcp_send_identity end_round tcp_disconnect
  connected_round c false recvs = some (tcp_disconnect c, left)
  connected_round c true recvs = elim (message_loop (tcp_send_identity c true) recvs) [
    | none ↦ none
    | some (next, waiting) ↦ some (next, waiting)
    | some (next, left) ↦ some (end_round next, left)
  ]

  -- A round whose connection fails for the retry-th time in a row, and the thread goes on.
  unfoldable pub failed_round : Client → ℕ → Client
  unfolding end_round
  failed_round c retry = end_round (emit c (slept retry))

  -- `tcp_client_thread_func`: `retry` is `retry_count`.
  unfoldable pub thread_loop : Client → ℕ → List Attempt → Option (Client × Progress)
  unfolding tcp_connect_to_server connected_round failed_round update_state client_c_stop
  thread_loop c retry [] = some (c, if c.tcp_running then waiting else left)
  thread_loop c retry (accepted fd ok recvs ∷ rest) = elim c.tcp_running [
    | false ↦ some (c, left)
    | true ↦ elim (connected_round (tcp_connect_to_server c (accepted fd ok recvs)).0 ok recvs) [
      | none ↦ none
      | some (next, waiting) ↦ some (next, waiting)
      | some (next, left) ↦ thread_loop next 0 rest
    ]
  ]
  thread_loop c retry (stop_between ∷ rest) = thread_loop (client_c_stop c) retry rest
  thread_loop c retry (a ∷ rest) = elim c.tcp_running [
    | false ↦ some (c, left)
    | true ↦ elim (ltb (suc retry) max_retries) [
      | true ↦ thread_loop (failed_round (tcp_connect_to_server c a).0 (suc retry)) (suc retry) rest
      | false ↦ some (update_state (tcp_connect_to_server c a).0 error, left)
    ]
  ]
