-- ===== src/ClientC/Thread/Sockets.antt =====
-- The thread of client C from its start to its end: the sockets that it opens and closes.
use smart_home_weather_monit.Base.{
  ℕ, suc, ◌≡◌, ◌≢◌, refl, ◌∙◌, Bool, true, false, Option, none, some, List, [], ◌∷◌, arith,
  Bool-cases, Option-cases, inl, inr, ltb, if◌then◌else◌,
}
use smart_home_weather_monit.Text.{bytes}
use smart_home_weather_monit.ClientC.{
  State, Client, Errno, sent, slept, emit, update_state, client_c_stop, tcp_disconnect, error,
}
use smart_home_weather_monit.ClientC.Lifecycle.{
  Inv, emit-Inv, errno-Inv, update_state-Inv, tcp_disconnect-Inv, client_c_stop-Inv,
  client_c_stop-socket, on_both,
}
use smart_home_weather_monit.ClientC.Thread.{
  Recv, Attempt, no_socket, bad_address, refused, accepted, stop_between, Progress, waiting, left,
  tcp_connect_to_server, message_loop, tcp_send_identity, end_round, connected_round, failed_round,
  thread_loop,
}
use smart_home_weather_monit.ClientC.Lifecycle.{connected-Inv, failed-Inv, no_socket-Inv}
use smart_home_weather_monit.ClientC.Thread.Retries.{Fails}
use smart_home_weather_monit.ClientC.Thread.Rounds.{
  round_waits, round_ends, round_refused, thread_stopped, thread-Fails, thread_waits,
  thread_goes_on, thread_stops, thread_loop_end,
}
use smart_home_weather_monit.ClientC.Thread.Receiving.{Runs, message_loop-Runs}

module _ (logged : Errno → Errno) where
  -- A run that is defined, and leaves no socket open if it has come to its end.
  abbrev pub Ends : Option (Client × Progress) → Type 0
  Ends r =
      (d : Client) × (p : Progress) × (r ≡ some (d, p)) × Inv d × (p ≡ left → d.tcp_socket ≡ none)

  Ends-step : (r r' : Option (Client × Progress)) → r ≡ r' → Ends r' → Ends r
  Ends-step r r' e (d, p, h, v, n) = (d, p, e ∙ h, v, n)

  abbrev Settled : Client → Type 0
  Settled c = Inv c × (c.tcp_socket ≡ none)

  end_round-Settled : (c : Client) → Inv c → Settled (end_round logged c)
  unfolding end_round
  end_round-Settled c v =
      let (v', e) = tcp_disconnect-Inv v in
      on_both Settled (tcp_disconnect c).tcp_running _ _ (emit-Inv (slept 2) tt v', e) (v', e)

  failed_round-Settled : (c : Client) (n : ℕ) → Inv c → Settled (failed_round logged c n)
  unfolding failed_round
  failed_round-Settled c n v = end_round-Settled (emit c (slept n)) (emit-Inv (slept n) tt v)

  pub identity-Inv : (c : Client) (b : Bool) → Inv c → Inv (tcp_send_identity logged c b)
  unfolding tcp_send_identity
  identity-Inv c false v = v
  identity-Inv c true v = elim (Option-cases c.tcp_socket) [
    | inl e ↦ rw (e, tcp_send_identity) v
    | inr (fd, e) ↦ rw (e, tcp_send_identity) (emit-Inv (sent fd (bytes "CLIENT_C")) tt v)
  ]

  connected_round-Ends :
      (c : Client) (ok : Bool) (recvs : List Recv)
      → Inv c
      → Ends (connected_round logged c ok recvs)
  connected_round-Ends c false recvs v =
      let (v', n) = tcp_disconnect-Inv v in
      (tcp_disconnect c, left, round_refused logged c recvs, v', λ h. n)
  connected_round-Ends c true recvs v =
      by_progress
        (message_loop-Runs logged (tcp_send_identity logged c true) recvs (identity-Inv c true v))
    where
      by_progress :
          Runs logged (message_loop logged (tcp_send_identity logged c true) recvs)
          → Ends (connected_round logged c true recvs)
      by_progress (d, waiting, e, v') =
          (d, waiting, round_waits logged c d recvs e, v', λ h. absurd (ground arith))
      by_progress (d, left, e, v') =
          let (v'', n) = end_round-Settled d v' in
          (end_round logged d, left, round_ends logged c d recvs e, v'', λ h. n)

  attempt-Settled :
      (c : Client) (a : Attempt) → Fails a → Settled c → Settled (tcp_connect_to_server c a).0
  unfolding tcp_connect_to_server
  attempt-Settled c (no_socket e) f (v, n) = (errno-Inv e (no_socket-Inv v n), refl)
  attempt-Settled c (bad_address fd) f (v, n) = (failed-Inv fd v n, refl)
  attempt-Settled c (refused fd e) f (v, n) = (errno-Inv e (failed-Inv fd v n), refl)
  attempt-Settled c (accepted fd ok recvs) f s = absurd f
  attempt-Settled c stop_between f s = absurd f

  pub connect-Inv :
      (c : Client) (a : Attempt) → Inv c → c.tcp_socket ≡ none → Inv (tcp_connect_to_server c a).0
  unfolding tcp_connect_to_server
  connect-Inv c (accepted fd ok recvs) v n = connected-Inv fd v n
  connect-Inv c stop_between v n = v
  connect-Inv c (no_socket e) v n = (attempt-Settled c (no_socket e) tt (v, n)).0
  connect-Inv c (bad_address fd) v n = (attempt-Settled c (bad_address fd) tt (v, n)).0
  connect-Inv c (refused fd e) v n = (attempt-Settled c (refused fd e) tt (v, n)).0

  update_state-socket : (c : Client) (s : State) → (update_state c s).tcp_socket ≡ c.tcp_socket
  unfolding update_state
  update_state-socket c s = ground arith

  failed_attempt :
      (c : Client) (retry : ℕ) (a : Attempt) (rest : List Attempt)
      → a ≢ stop_between
      → Fails a
      → Settled c
      → ((d : Client) → Settled d → Ends (thread_loop logged d (suc retry) rest))
      → Ends (thread_loop logged c retry (a ∷ rest))
  failed_attempt c retry a rest ne f s ih = elim (Bool-cases c.tcp_running) [
    | inl on ↦
        let d = (tcp_connect_to_server c a).0 in
        let (v, n) = attempt-Settled c a f s in
        Ends-step _ _ (thread-Fails logged c retry rest a f on) (
          on_both {A = Option (Client × Progress)} Ends (ltb (suc retry) 10) _ _
            (ih (failed_round logged d (suc retry)) (failed_round-Settled d (suc retry) v))
            (
              update_state d error,
              left,
              refl,
              update_state-Inv d error v.sockets (λ g. cc),
              λ h. update_state-socket d error ∙ n,
            ))
    | inr off ↦ (c, left, thread_stopped logged c retry rest a ne off, s.0, λ h. s.1)
  ]

  -- Whatever the connections, the messages and the stops of a run are: from a client C that is not
  -- connected, the thread never meets undefined behaviour. At its end, and wherever it waits, every socket
  -- that it has opened has been closed exactly once, in order, but for the one in use; the state
  -- `connected` has a socket; and a status callback has been told the state. At its end no socket is open.
  pub thread_loop-Ends :
      (c : Client) (retry : ℕ) (script : List Attempt)
      → Inv c
      → c.tcp_socket ≡ none
      → Ends (thread_loop logged c retry script)
  thread_loop-Ends c retry [] v n =
      (c, if c.tcp_running then waiting else left, thread_loop_end logged c retry, v, λ h. n)
  thread_loop-Ends c retry (accepted fd ok recvs ∷ rest) v n = elim (Bool-cases c.tcp_running) [
    | inl on ↦
        by_progress on
          (connected_round-Ends (tcp_connect_to_server c (accepted fd ok recvs)).0 ok recvs
            (connect-Inv c (accepted fd ok recvs) v n))
          (λ d w m. thread_loop-Ends d 0 rest w m)
    | inr off ↦ (
      c,
      left,
      thread_stopped logged c retry rest (accepted fd ok recvs) (λ e. cc) off,
      v,
      λ h. n,
    )
  ]
    where
      by_progress :
          c.tcp_running ≡ true
          → Ends
              (connected_round logged (tcp_connect_to_server c (accepted fd ok recvs)).0 ok recvs)
          → ((d : Client) → Inv d → d.tcp_socket ≡ none → Ends (thread_loop logged d 0 rest))
          → Ends (thread_loop logged c retry (accepted fd ok recvs ∷ rest))
      by_progress on (d, waiting, e, w, m) ih =
          (d, waiting, thread_waits logged c retry rest fd ok recvs d on e, w, m)
      by_progress on (d, left, e, w, m) ih =
          Ends-step _ _ (thread_goes_on logged c retry rest fd ok recvs d on e) (ih d w (m refl))
  thread_loop-Ends c retry (stop_between ∷ rest) v n =
      Ends-step _ _ (thread_stops logged c retry rest) (
        thread_loop-Ends (client_c_stop c) retry rest (client_c_stop-Inv v)
          (client_c_stop-socket c (inr n)))
  thread_loop-Ends c retry (no_socket e ∷ rest) v n =
      failed_attempt c retry (no_socket e) rest (λ h. cc) tt (v, n)
        (λ d s. thread_loop-Ends d (suc retry) rest s.0 s.1)
  thread_loop-Ends c retry (bad_address fd ∷ rest) v n =
      failed_attempt c retry (bad_address fd) rest (λ h. cc) tt (v, n)
        (λ d s. thread_loop-Ends d (suc retry) rest s.0 s.1)
  thread_loop-Ends c retry (refused fd e ∷ rest) v n =
      failed_attempt c retry (refused fd e) rest (λ h. cc) tt (v, n)
        (λ d s. thread_loop-Ends d (suc retry) rest s.0 s.1)
