-- ===== src/Gateway/Keeping.antt =====
-- How any gateway obeys, online or not: it keeps the values ordered last.
use smart_home_weather_monit.Base.{
  ◌≡◌, refl, ap, sym, ◌∙◌, Bool, List, ◌∷◌, [], ◌++◌, arith, false, some, Option, Option-cases, inl,
  inr,
}
use smart_home_weather_monit.Base.Int.{ℤ}
use smart_home_weather_monit.Text.{Bytes}
use smart_home_weather_monit.ClientC.{eagain, eintr, other_error}
use smart_home_weather_monit.Gateway.{Gateway, act, slept_ms, send_if_connected}
use smart_home_weather_monit.Gateway.Cloud.{Notice, handle_notice}
use smart_home_weather_monit.Gateway.Delivery.{announced}
use smart_home_weather_monit.Gateway.Listeners.{
  Read, got, no_writer, stop_asked, failed, command_loop, command_text, listener_loop,
  close_weather_fifo,
}
use smart_home_weather_monit.Gateway.Requests.{Device, SwitchEnv, device_command, switch_device}
use smart_home_weather_monit.Gateway.Orders.{Order, device, devices, obey_all, Obedience}
use smart_home_weather_monit.Gateway.Announcing.{obey_all-append, devices-announced}

send_if_connected-devices :
    (g : Gateway) (text : Bytes) (ok : Bool) → devices (send_if_connected g text ok) ≡ devices g
unfolding send_if_connected
send_if_connected-devices g text ok = ground arith

abbrev pub Keeps : List Order → Gateway → Gateway → Type 0
Keeps xs g h = devices h ≡ obey_all (devices g) xs

pub Keeps-append :
    (xs ys : List Order) (g h k : Gateway) → Keeps xs g h → Keeps ys h k → Keeps (xs ++ ys) g k
Keeps-append xs ys g h k e f =
    f ∙ ap (λ s. obey_all s ys) e ∙ sym (obey_all-append (devices g) xs ys)

pub switch_device-Keeps :
    (env : SwitchEnv) (g : Gateway) (d : Device) (n : ℤ)
    → Keeps (device d n ∷ []) g (switch_device env g d n)
unfolding switch_device
switch_device-Keeps env g d n =
    send_if_connected-devices (announced env g d n) (device_command d n) env.sends
    ∙ devices-announced env g d n

-- To obey and keep the values.
abbrev pub keeping : Obedience
keeping = record {
  Ready = λ g. Unit;
  Sends = λ env. Unit;
  Does = Keeps;
  ready = λ e. tt;
  nil = λ g v. refl;
  append = λ {xs} {ys} {g} {h} {k} e f. Keeps-append xs ys g h k e f;
  switches = λ env g d n v s. switch_device-Keeps env g d n;
  sets = λ g n v. refl;
}

pub same_gateways : (g next : Gateway) → ◌≡◌ {A = Option Gateway} (some g) (some next) → g ≡ next
same_gateways g next e = cc

pub same_devices :
    (g next : Gateway) → ◌≡◌ {A = Option Gateway} (some g) (some next) → devices next ≡ devices g
same_devices g next e = ap devices (sym (same_gateways g next e))

-- The threads of the gateway and the notices of the cloud leave the devices alone.
pub command_loop-devices :
    (g next : Gateway) (reads : List Read)
    → command_loop g reads ≡ some next
    → devices next ≡ devices g
unfolding command_loop
command_loop-devices g next [] e = same_devices g next e
command_loop-devices g next (stop_asked ∷ rest) e =
    same_devices (record g { command_handler_running = false }) next e
command_loop-devices g next (got msg ok ∷ rest) e = elim (Option-cases (command_text msg)) [
  | inl t ↦ absurd (ground (arith, e, t))
  | inr (text, t) ↦
      let rest_runs : command_loop (send_if_connected g text ok) rest ≡ some next =
        rw (t, command_loop) at e in
      command_loop-devices (send_if_connected g text ok) next rest rest_runs
      ∙ send_if_connected-devices g text ok
]
command_loop-devices g next (no_writer ∷ rest) e =
    command_loop-devices (act g (slept_ms 100 ∷ [])) next rest e
command_loop-devices g next (failed eagain ∷ rest) e = command_loop-devices g next rest e
command_loop-devices g next (failed eintr ∷ rest) e = same_devices g next e
command_loop-devices g next (failed (other_error k) ∷ rest) e = same_devices g next e

close_weather_fifo-devices : (g : Gateway) → devices (close_weather_fifo g) ≡ devices g
close_weather_fifo-devices g = ground arith

pub listener_loop-devices :
    (g next : Gateway) (reads : List Read)
    → listener_loop g reads ≡ some next
    → devices next ≡ devices g
unfolding listener_loop
listener_loop-devices g next [] e = same_devices g next e
listener_loop-devices g next (stop_asked ∷ rest) e =
    same_devices (close_weather_fifo (record g { fifo_listener_running = false })) next e
    ∙ close_weather_fifo-devices (record g { fifo_listener_running = false })
listener_loop-devices g next (got msg ok ∷ rest) e = elim (Option-cases (command_text msg)) [
  | inl t ↦ absurd (ground (arith, e, t))
  | inr (text, t) ↦ listener_loop-devices g next rest (rw (t, listener_loop) at e)
]
listener_loop-devices g next (no_writer ∷ rest) e =
    listener_loop-devices (act g (slept_ms 100 ∷ [])) next rest e
listener_loop-devices g next (failed eagain ∷ rest) e = listener_loop-devices g next rest e
listener_loop-devices g next (failed eintr ∷ rest) e = same_devices g next e
listener_loop-devices g next (failed (other_error k) ∷ rest) e = same_devices g next e

pub handle_notice-devices : (g : Gateway) (n : Notice) → devices (handle_notice g n) ≡ devices g
unfolding handle_notice
handle_notice-devices g n = ground arith
