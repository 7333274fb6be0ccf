-- ===== src/Gateway/Orders.antt =====
-- What a request of the cloud orders, apart from how `handleCommandRequest` and `handlePropertiesSet` read
-- it: values for the alarm and the devices, in order.
use smart_home_weather_monit.Base.{Option, none, some, List, [], ◌∷◌, ◌++◌, Option-cases, inl, inr}
use smart_home_weather_monit.Base.Int.{ℤ}
use smart_home_weather_monit.Cjson.{Cjson}
use smart_home_weather_monit.Gateway.{Gateway}
use smart_home_weather_monit.Gateway.Requests.{
  Device, led, buzzer, SwitchEnv, switch_device, number_item, set_alarm, switch_if,
}

pub data Order : Type 0 where
  alarm : ℤ → Order
  device : Device → ℤ → Order

-- What the gateway keeps of the devices.
pub record Devices : Type 0 where
  pub alarm_value : ℤ
  pub led_status : ℤ
  pub buzzer_status : ℤ

abbrev pub devices : Gateway → Devices
devices g = record {
  alarm_value = g.alarm_value;
  led_status = g.led_status;
  buzzer_status = g.buzzer_status;
}

abbrev pub obey : Devices → Order → Devices
obey s (alarm n) = record s { alarm_value = n }
obey s (device led n) = record s { led_status = n }
obey s (device buzzer n) = record s { buzzer_status = n }

-- The devices when all orders have been obeyed, in order.
abbrev pub obey_all : Devices → List Order → Devices
obey_all s [] = s
obey_all s (x ∷ xs) = obey_all (obey s x) xs

-- Ways to obey: what it asks of the gateway and of the sends, and what holds between the gateway before and
-- after some orders.
pub record Obedience : Type 1 where
  pub Ready : Gateway → Type 0
  pub Sends : SwitchEnv → Type 0
  pub Does : List Order → Gateway → Gateway → Type 0
  pub ready : {xs : List Order} → {g h : Gateway} → Does xs g h → Ready h
  pub nil : (g : Gateway) → Ready g → Does [] g g
  pub append :
      {xs ys : List Order} → {g h k : Gateway} → Does xs g h → Does ys h k → Does (xs ++ ys) g k
  pub switches :
      (env : SwitchEnv) (g : Gateway) (d : Device) (n : ℤ)
      → Ready g
      → Sends env
      → Does (device d n ∷ []) g (switch_device env g d n)
  pub sets : (g : Gateway) (n : ℤ) → Ready g → Does (alarm n ∷ []) g (record g { alarm_value = n })

module _ (c : Cjson) where
  -- A member that is a number orders something; any other orders nothing.
  abbrev pub number_order : (ℤ → Order) → Option c.Node → List Order
  number_order order item = elim (number_item c item) [ none ↦ [] | some n ↦ order n ∷ [] ]

  module _ (o : Obedience) where
    pub switch_if-Does :
        (env : SwitchEnv) (g : Gateway) (d : Device) (item : Option c.Node)
        → o.Ready g
        → o.Sends env
        → o.Does (number_order (device d) item) g (switch_if c env g d item)
    switch_if-Does env g d item v s = elim (Option-cases (number_item c item)) [
      | inl e ↦ rw (e, number_order, switch_if) (o.nil g v)
      | inr (n, e) ↦ rw (e, number_order, switch_if) (o.switches env g d n v s)
    ]

    pub set_alarm-Does :
        (g : Gateway) (item : Option c.Node)
        → o.Ready g
        → o.Does (number_order alarm item) g (set_alarm c g item)
    set_alarm-Does g item v = elim (Option-cases (number_item c item)) [
      | inl e ↦ rw (e, number_order, set_alarm) (o.nil g v)
      | inr (n, e) ↦ rw (e, number_order, set_alarm) (o.sets g n v)
    ]
