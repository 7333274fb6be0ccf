-- ===== src/Gateway/Interleaving.antt =====
-- The gateway's threads and the callbacks of the cloud, interleaved: each call is one step, but a
-- report is two; and what the reports show of the devices.
pub mod Consistency
use smart_home_weather_monit.Base.{
  ℕ, ◌≡◌, refl, ap, sym, ◌∙◌, Option, none, some, List, [], ◌∷◌, ◌++◌, length, drop, map, zero, suc,
}
use smart_home_weather_monit.Base.Int.{ℤ}
use smart_home_weather_monit.Gateway.Fifo.{ReadEnv}
use smart_home_weather_monit.Text.{Bytes, bytes}
use smart_home_weather_monit.Cjson.{Cjson}
use smart_home_weather_monit.ClientC.{Client}
use smart_home_weather_monit.Gateway.{Gateway, Action, reported, act}
use smart_home_weather_monit.Gateway.Cloud.{Notice, handle_notice}
use smart_home_weather_monit.Gateway.Listeners.{Read, command_loop, listener_loop}
use smart_home_weather_monit.Gateway.Requests.{
  Device, SwitchEnv, handle_command_request, handle_properties_set, handle_properties_get,
  command_response, set_response,
}
use smart_home_weather_monit.Gateway.Reports.{
  Value, Printer, ReportEnv, smoke_members, control_members, smoke_payload, finish_report,
}
use smart_home_weather_monit.Gateway.Buffers.{Members, properties_report_total}
use smart_home_weather_monit.Gateway.Switching.{NamedServices}
use smart_home_weather_monit.Gateway.Orders.{Order, Devices, devices, obey, obey_all}
use smart_home_weather_monit.Gateway.Commands.{Commanded}
use smart_home_weather_monit.Gateway.Properties.{requested, handle_properties_set-Does}
use smart_home_weather_monit.Gateway.Keeping.{
  keeping, command_loop-devices, listener_loop-devices, handle_notice-devices,
}

-- What the cloud sees: its orders, that a report begins, and what the SDK is handed for it.
pub data Happened : Type 0 where
  ordered : Order → Happened
  begun : Happened
  told : List Action → Happened

-- The devices as they are ordered, and the alarm when a report began last.
pub record View : Type 0 where
  pub now : Devices
  pub alarm_begun : ℤ

abbrev pub see : View → Happened → View
see v (ordered x) = record v { now = obey v.now x }
see v begun = record v { alarm_begun = v.now.alarm_value }
see v (told as') = v

abbrev pub view_after : View → List Happened → View
view_after v [] = v
view_after v (h ∷ hs) = view_after (see v h) hs

module _ (print : Printer) where
  -- One report, which shows these values of the alarm and the devices.
  abbrev pub Shows : View → List Action → Type 0
  Shows v as' =
      (r1 : ℕ) × (r2 : ℕ) × (weather : List (Bytes × Value)) × Members weather
      × (as'
          ≡ reported (
              (bytes "smokeDetector", print (smoke_members r1 r2 v.alarm_begun))
              ∷ (bytes "Weather", print weather)
              ∷ (bytes "Control", print (control_members v.now.led_status v.now.buzzer_status))
              ∷ [])
            ∷ [])

  -- Every report shows the alarm that was ordered last before it began, and the LED and the buzzer that were
  -- ordered last before it was handed over.
  abbrev pub Consistent : View → List Happened → Type 0
  Consistent v [] = Unit
  Consistent v (ordered x ∷ hs) = Consistent (see v (ordered x)) hs
  Consistent v (begun ∷ hs) = Consistent (see v begun) hs
  Consistent v (told as' ∷ hs) = Shows v as' × Consistent v hs

-- What a call has added to the actions.
abbrev pub added : Gateway → Gateway → List Action
added g next = drop (length g.actions) next.actions

-- The gateway, and the smoke payload of a report that has begun.
pub record Running : Type 0 where
  pub gateway : Gateway
  pub pending : Option (Option Bytes)

abbrev pub idle : Gateway → Running
idle g = record { gateway = g; pending = none }

abbrev moved : Running → Gateway → Running
moved s g = record s { gateway = g }

module _ (c : Cjson) (print : Printer) where
  -- One call, by whatever thread, with what the cloud sees of it; a report is two steps, since it may wait
  -- for the FIFO between them. The services of a request to set properties are named by strings.
  pub data Step (s : Running) : List Happened → Running → Type 0 where
    commands :
        (env : SwitchEnv) (message request : Bytes) (root : c.Node) (xs : List Order)
        → c.parse message ≡ some root
        → Commanded c root xs
        → Step s (map ordered xs) (moved s (handle_command_request c env s.gateway message request))
    ignores_command :
        (env : SwitchEnv) (message request : Bytes)
        → c.parse message ≡ none
        → Step s [] (moved s (handle_command_request c env s.gateway message request))
    sets :
        (env : ℕ → Device → SwitchEnv) (message request : Bytes) (root : c.Node) (next : Gateway)
        → c.parse message ≡ some root
        → ((found : c.Node)
            → c.get_object_item root (bytes "services") ≡ some found
            → NamedServices c found)
        → handle_properties_set c env s.gateway message request ≡ some next
        → Step s (map ordered (requested c root)) (moved s next)
    ignores_set :
        (env : ℕ → Device → SwitchEnv) (message request : Bytes) (next : Gateway)
        → c.parse message ≡ none
        → handle_properties_set c env s.gateway message request ≡ some next
        → Step s [] (moved s next)
    gets :
        (message request : Bytes)
        → Step s [] (moved s (handle_properties_get s.gateway message request))
    notified : (n : Notice) → Step s [] (moved s (handle_notice s.gateway n))
    begins :
        (env : ReportEnv)
        → s.pending ≡ none
        → Step s (begun ∷ []) (record s { pending = some (smoke_payload print env s.gateway) })
    reports :
        (fifo : ReadEnv) (smoke : Option Bytes) (next : Gateway)
        → s.pending ≡ some smoke
        → finish_report c print fifo smoke s.gateway ≡ some next
        → Step s (told (added s.gateway next) ∷ []) (idle next)
    handles_command :
        (read : Read) (next : Gateway)
        → command_loop s.gateway (read ∷ []) ≡ some next
        → Step s [] (moved s next)
    listens :
        (read : Read) (next : Gateway)
        → listener_loop s.gateway (read ∷ []) ≡ some next
        → Step s [] (moved s next)
    client_moves : (client : Client) → Step s [] (moved s (record s.gateway { client = client }))

  -- The calls of any number of threads, in any order.
  pub data Run (s : Running) : List Happened → Running → Type 0 where
    start : Run s [] s
    later :
        {hs : List Happened} {t u : Running} (new : List Happened)
        → Run s hs t
        → Step t new u
        → Run s (hs ++ new) u
