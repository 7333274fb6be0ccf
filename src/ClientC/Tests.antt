-- ===== src/ClientC/Tests.antt =====
-- Runs of client C.
use smart_home_weather_monit.Base.{◌≡◌, refl, true, some, ◌∷◌, replicate, List, []}
use smart_home_weather_monit.Text.{Bytes, bytes}
use smart_home_weather_monit.ClientC.{
  Client, initial_client, connected, error, eagain, other_error, client_c_start, connecting,
}
use smart_home_weather_monit.ClientC.Commands.{
  parse_command_type, IsFirstNamed, parse_command_type-IsFirstNamed,
}
use smart_home_weather_monit.ClientC.Weather.{Weather}
use smart_home_weather_monit.ClientC.Thread.{
  end_of_stream, failed, waiting, left, message_loop, bad_address, accepted, Attempt, thread_loop,
}
use smart_home_weather_monit.ClientC.Thread.Sockets.{Ends, thread_loop-Ends}
use smart_home_weather_monit.ClientC.Thread.Stuck.{end_of_stream_unnoticed}
use smart_home_weather_monit.ClientC.Thread.Retries.{ten_failures}

abbrev online : Client
online = record initial_client { tcp_socket = some 7; tcp_running = true; state = connected }

end_of_stream_unnoticed_example :
    message_loop (λ e. e) online (failed eagain ∷ replicate 3 end_of_stream)
    ≡ some (record online { errno = eagain }, waiting)
end_of_stream_unnoticed_example = end_of_stream_unnoticed (λ e. e) 3 7 online refl refl refl

ten_failures_example :
    (last : Client) × (thread_loop (λ e. e) online 0 (replicate 10 (bad_address 8))
      ≡ some (last, left))
    × (last.state ≡ error)
    × (client_c_start last true ≡ (last, true))
ten_failures_example =
    ten_failures (λ e. e) online (replicate 10 (bad_address 8)) true refl
      (tt, (tt, (tt, (tt, (tt, (tt, (tt, (tt, (tt, (tt, tt)))))))))) refl

abbrev request : Bytes
request = bytes "buzzer_off"

parse_command_type-IsFirstNamed_example : IsFirstNamed request (parse_command_type (some request))
parse_command_type-IsFirstNamed_example = parse_command_type-IsFirstNamed request

-- A thread that was started meets a connection that is lost at once, and then a wrong address.
abbrev begun : Client
begun = record initial_client { tcp_running = true; state = connecting }

abbrev script : List Attempt
script = accepted 7 true (failed (other_error 104) ∷ []) ∷ bad_address 8 ∷ []

thread_loop-Ends_example : Ends (λ e. e) (thread_loop (λ e. e) begun 0 script)
thread_loop-Ends_example =
    thread_loop-Ends (λ e. e) begun 0 script
      (record { sockets = refl; online = λ g. cc; reported = λ f g. cc }) refl

-- The status callback is function 1.
abbrev starting : Client
starting = record begun { config = record begun.config { status_callback = some 1 } }
