-- ===== src/Gateway/Announcing.antt =====
-- How a gateway whose client C is online obeys: it tells the server.
use smart_home_weather_monit.Base.{
  ℕ, ◌≡◌, refl, ap, sym, ◌∙◌, true, List, [], ◌∷◌, ◌++◌, arith, append-nil, append_assoc,
}
use smart_home_weather_monit.Base.Int.{ℤ}
use smart_home_weather_monit.ClientC.{Client, Event, sent}
use smart_home_weather_monit.Gateway.{Gateway}
use smart_home_weather_monit.Gateway.Fifo.{write_command_to_fifo}
use smart_home_weather_monit.Gateway.Delivery.{
  IsOnline, switch_online, announced, announced-SameClient, same-IsOnline, emit-IsOnline,
}
use smart_home_weather_monit.Gateway.Requests.{
  Device, led, buzzer, SwitchEnv, device_command, switch_device,
}
use smart_home_weather_monit.Gateway.Orders.{
  Order, alarm, device, Devices, devices, obey, obey_all, Obedience,
}

-- What the server is told on a socket: of the devices, not of the alarm.
abbrev pub announcements : ℕ → List Order → List Event
announcements fd [] = []
announcements fd (alarm n ∷ xs) = announcements fd xs
announcements fd (device d n ∷ xs) = sent fd (device_command d n) ∷ announcements fd xs

-- The gateway has obeyed: the devices are as ordered, and client C, still online, has told the server.
pub record Obeys (fd : ℕ) (xs : List Order) (g next : Gateway) : Type 0 where
  pub state : devices next ≡ obey_all (devices g) xs
  pub online : IsOnline next fd
  pub trace : next.client.trace ≡ g.client.trace ++ announcements fd xs

pub obey_all-append :
    (s : Devices) (xs ys : List Order) → obey_all s (xs ++ ys) ≡ obey_all (obey_all s xs) ys
obey_all-append s [] ys = refl
obey_all-append s (x ∷ xs) ys = obey_all-append (obey s x) xs ys

announcements-append :
    (fd : ℕ) (xs ys : List Order)
    → announcements fd (xs ++ ys) ≡ announcements fd xs ++ announcements fd ys
announcements-append fd [] ys = refl
announcements-append fd (alarm n ∷ xs) ys = announcements-append fd xs ys
announcements-append fd (device d n ∷ xs) ys =
    ap (◌∷◌ (sent fd (device_command d n))) (announcements-append fd xs ys)

pub Obeys-nil : (fd : ℕ) (g : Gateway) → IsOnline g fd → Obeys fd [] g g
Obeys-nil fd g v = record { state = refl; online = v; trace = sym (append-nil g.client.trace) }

pub Obeys-append :
    {fd : ℕ} {xs ys : List Order} {g h k : Gateway}
    → Obeys fd xs g h
    → Obeys fd ys h k
    → Obeys fd (xs ++ ys) g k
Obeys-append {fd} {xs} {ys} {g} v w = record {
  state = w.state ∙ ap (λ s. obey_all s ys) v.state ∙ sym (obey_all-append (devices g) xs ys);
  online = w.online;
  trace =
      w.trace
      ∙ ap (λ es. es ++ announcements fd ys) v.trace
      ∙ append_assoc g.client.trace (announcements fd xs) (announcements fd ys)
      ∙ ap (λ es. g.client.trace ++ es) (sym (announcements-append fd xs ys));
}

pub devices-announced :
    (env : SwitchEnv) (g : Gateway) (d : Device) (n : ℤ)
    → devices (announced env g d n) ≡ obey (devices g) (device d n)
unfolding write_command_to_fifo
devices-announced env g led n = ground arith
devices-announced env g buzzer n = ground arith

pub switch_device-Obeys :
    (env : SwitchEnv) (g : Gateway) (d : Device) (n : ℤ) (fd : ℕ)
    → IsOnline g fd
    → env.sends ≡ true
    → Obeys fd (device d n ∷ []) g (switch_device env g d n)
switch_device-Obeys env g d n fd v s =
    let g1 = announced env g d n in
    let same = announced-SameClient env g d n in
    rw (switch_online env g d n fd v s) (record {
      state = devices-announced env g d n;
      online = emit-IsOnline g1 fd (sent fd (device_command d n)) (same-IsOnline g g1 fd same v);
      trace = ap (λ (c : Client). c.trace ++ sent fd (device_command d n) ∷ []) same.0;
    })

pub set_alarm-Obeys :
    (g : Gateway) (n : ℤ) (fd : ℕ)
    → IsOnline g fd
    → Obeys fd (alarm n ∷ []) g (record g { alarm_value = n })
set_alarm-Obeys g n fd v = record {
  state = refl;
  online = record { ready = v.ready; online = v.online; socket = v.socket };
  trace = sym (append-nil g.client.trace);
}

-- To obey and tell the server on a socket.
abbrev pub announcing : ℕ → Obedience
announcing fd = record {
  Ready = λ g. IsOnline g fd;
  Sends = λ env. env.sends ≡ true;
  Does = Obeys fd;
  ready = λ o. o.online;
  nil = Obeys-nil fd;
  append = Obeys-append;
  switches = λ env g d n. switch_device-Obeys env g d n fd;
  sets = λ g n. set_alarm-Obeys g n fd;
}
