-- ===== src/ClientC/Thread/Stuck.antt =====
-- What becomes of `errno` when the server closes the connection.
use smart_home_weather_monit.Base.{
  ℕ, zero, suc, ◌≡◌, refl, true, false, some, List, ◌∷◌, arith, replicate,
}
use smart_home_weather_monit.ClientC.{Client, Errno, eagain}
use smart_home_weather_monit.ClientC.Thread.{
  Recv, end_of_stream, failed, waiting, left, is_retryable, message_loop,
}

stays :
    (logged : Errno → Errno) (n fd : ℕ) (c : Client)
    → logged c.errno ≡ c.errno
    → is_retryable c.errno ≡ true
    → c.tcp_running ≡ true
    → c.tcp_socket ≡ some fd
    → message_loop logged c (replicate n end_of_stream) ≡ some (c, waiting)
unfolding message_loop
stays logged zero fd c l e r s = ground arith
stays logged (suc n) fd c l e r s = ground (arith, stays logged n fd c l e r s)

-- After one receive that timed out, the end of the stream is never noticed, if the log function leaves
-- EAGAIN in `errno`: however often `recv` returns 0 the loop goes on, with the socket and the state
-- that it had.
pub end_of_stream_unnoticed :
    (logged : Errno → Errno) (n fd : ℕ) (c : Client)
    → logged eagain ≡ eagain
    → c.tcp_running ≡ true
    → c.tcp_socket ≡ some fd
    → message_loop logged c (failed eagain ∷ replicate n end_of_stream)
      ≡ some (record c { errno = eagain }, waiting)
unfolding message_loop
end_of_stream_unnoticed logged n fd c l r s =
    ground (arith, stays logged n fd (record c { errno = eagain }) l refl r s)

-- If `errno` holds another error when the stream ends, the loop is left at once.
pub end_of_stream_noticed :
    (logged : Errno → Errno) (rs : List Recv) (fd : ℕ) (c : Client)
    → is_retryable (logged c.errno) ≡ false
    → c.tcp_running ≡ true
    → c.tcp_socket ≡ some fd
    → message_loop logged c (end_of_stream ∷ rs)
      ≡ some (record c { errno = logged (logged c.errno) }, left)
unfolding message_loop
end_of_stream_noticed logged rs fd c e r s = ground arith
