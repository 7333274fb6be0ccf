-- ===== src/ClientC/Thread/Rounds.antt =====
-- The steps of client C's thread: a round, and the loop over attempts.
use smart_home_weather_monit.Base.{
  ℕ, suc, ◌≡◌, ◌≢◌, refl, Bool, true, false, some, List, [], ◌∷◌, arith, ltb, if◌then◌else◌,
}
use smart_home_weather_monit.ClientC.{
  Client, Errno, update_state, client_c_stop, tcp_disconnect, error,
}
use smart_home_weather_monit.ClientC.Thread.{
  Recv, Attempt, no_socket, bad_address, refused, accepted, stop_between, waiting, left,
  tcp_connect_to_server, message_loop, tcp_send_identity, end_round, connected_round, failed_round,
  thread_loop,
}
use smart_home_weather_monit.ClientC.Thread.Retries.{Fails}

module _ (logged : Errno → Errno) where
  pub round_waits :
      (c d : Client) (recvs : List Recv)
      → message_loop logged (tcp_send_identity logged c true) recvs ≡ some (d, waiting)
      → connected_round logged c true recvs ≡ some (d, waiting)
  unfolding connected_round
  round_waits c d recvs e = ground (arith, e)

  pub round_ends :
      (c d : Client) (recvs : List Recv)
      → message_loop logged (tcp_send_identity logged c true) recvs ≡ some (d, left)
      → connected_round logged c true recvs ≡ some (end_round logged d, left)
  unfolding connected_round
  round_ends c d recvs e = ground (arith, e)

  pub round_refused :
      (c : Client) (recvs : List Recv)
      → connected_round logged c false recvs ≡ some (tcp_disconnect c, left)
  unfolding connected_round
  round_refused c recvs = refl

  -- The steps of the loop over attempts.
  module _ (c : Client) (retry : ℕ) (rest : List Attempt) where
    pub thread_stopped :
        (a : Attempt)
        → a ≢ stop_between
        → c.tcp_running ≡ false
        → thread_loop logged c retry (a ∷ rest) ≡ some (c, left)
    unfolding thread_loop
    thread_stopped (no_socket e) ne off = ground arith
    thread_stopped (bad_address fd) ne off = ground arith
    thread_stopped (refused fd e) ne off = ground arith
    thread_stopped (accepted fd ok recvs) ne off = ground arith
    thread_stopped stop_between ne off = absurd (ne refl)

    pub thread-Fails :
        (a : Attempt)
        → Fails a
        → c.tcp_running ≡ true
        → thread_loop logged c retry (a ∷ rest) ≡ (
            if ltb (suc retry) 10
            then thread_loop logged
                (failed_round logged (tcp_connect_to_server c a).0 (suc retry))
                (suc retry)
                rest
            else some (update_state (tcp_connect_to_server c a).0 error, left))
    unfolding thread_loop
    thread-Fails (no_socket e) f on = ground arith
    thread-Fails (bad_address fd) f on = ground arith
    thread-Fails (refused fd e) f on = ground arith
    thread-Fails (accepted fd ok recvs) f on = absurd f
    thread-Fails stop_between f on = absurd f

    pub thread_waits :
        (fd : ℕ) (ok : Bool) (recvs : List Recv) (d : Client)
        → c.tcp_running ≡ true
        → connected_round logged (tcp_connect_to_server c (accepted fd ok recvs)).0 ok recvs
          ≡ some (d, waiting)
        → thread_loop logged c retry (accepted fd ok recvs ∷ rest) ≡ some (d, waiting)
    unfolding thread_loop
    thread_waits fd ok recvs d on e = ground (arith, e)

    pub thread_goes_on :
        (fd : ℕ) (ok : Bool) (recvs : List Recv) (d : Client)
        → c.tcp_running ≡ true
        → connected_round logged (tcp_connect_to_server c (accepted fd ok recvs)).0 ok recvs
          ≡ some (d, left)
        → thread_loop logged c retry (accepted fd ok recvs ∷ rest) ≡ thread_loop logged d 0 rest
    unfolding thread_loop
    thread_goes_on fd ok recvs d on e = ground (arith, e)

    pub thread_stops :
        thread_loop logged c retry (stop_between ∷ rest)
        ≡ thread_loop logged (client_c_stop c) retry rest
    unfolding thread_loop
    thread_stops = refl

  pub thread_loop_end :
      (c : Client) (retry : ℕ)
      → thread_loop logged c retry [] ≡ some (c, if c.tcp_running then waiting else left)
  unfolding thread_loop
  thread_loop_end c retry = refl
