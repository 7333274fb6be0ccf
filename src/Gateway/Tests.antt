-- ===== src/Gateway/Tests.antt =====
-- Runs of the gateway: requests of the cloud while client C is connected.
use smart_home_weather_monit.Base.{
  zero, suc, ◌⊎◌, ◌≡◌, refl, true, none, some, List, [], ◌∷◌, ◌++◌, arith, is_some, if◌then◌else◌,
}
use smart_home_weather_monit.Base.Int.{pos}
use smart_home_weather_monit.Text.{bytes, str_eq}
use smart_home_weather_monit.Cjson.{Cjson}
use smart_home_weather_monit.Cjson.Sample.{
  Json, text, array, object, nil, cons, end, field, reading,
}
use smart_home_weather_monit.ClientC.{sent}
use smart_home_weather_monit.Gateway.{Gateway, Action}
use smart_home_weather_monit.Gateway.Listeners.{got, command_loop}
use smart_home_weather_monit.Gateway.Requests.{
  led, device_command, switch_device, command_response, set_response, handle_command_request,
  handle_properties_set,
}
use smart_home_weather_monit.Gateway.Switching.{
  NamedServices, Crashes, handle_properties_set-undefined_iff,
}
use smart_home_weather_monit.Gateway.Orders.{Order}
use smart_home_weather_monit.Gateway.Fifo.{command_bytes}
use smart_home_weather_monit.Gateway.Announcing.{Obeys}
use smart_home_weather_monit.Gateway.Commands.{Commanded, handle_command_request-Obeys}
use smart_home_weather_monit.Gateway.Properties.{requested, handle_properties_set-Obeys}
use smart_home_weather_monit.Gateway.Delivery.{switch_device-sent_twice}
use smart_home_weather_monit.Gateway.Samples.{
  switching, online, online-IsOnline, action, paras, led_request, switching_cjson, doc_1,
  led_request-parse,
}

switch_device-sent_twice_example :
    (new : List Action) × (last : Gateway) × ((switch_device switching online led (pos 1)).actions
      ≡ online.actions ++ new)
    × (command_loop (switch_device switching online led (pos 1)) (got (command_bytes new) true ∷ [])
        ≡ some last)
    × (last.client.trace
        ≡ (online.client.trace ++ sent 7 (device_command led (pos 1)) ∷ [])
          ++ sent 7 (device_command led (pos 1)) ∷ [])
unfolding device_command
switch_device-sent_twice_example =
    switch_device-sent_twice switching online led (pos 1) 7 online-IsOnline refl refl refl

handle_command_request-Obeys_example :
    (next : Gateway) × (xs : List Order) × Commanded switching_cjson led_request xs
    × (handle_command_request switching_cjson switching online doc_1 (bytes "id")
        ≡ command_response next (bytes "id"))
    × Obeys 7 xs online next
handle_command_request-Obeys_example =
    handle_command_request-Obeys switching_cjson switching online doc_1 (bytes "id") led_request 7
      led_request-parse online-IsOnline refl

-- A request whose only service is named by a number.
abbrev numbered : Json
numbered = object (field (bytes "service_id") action (field (bytes "properties") paras end))

abbrev services : Json
services = array (cons numbered nil)

abbrev set_request : Json
set_request = object (field (bytes "services") services end)

abbrev setting_cjson : Cjson
setting_cjson = reading doc_1 set_request

handle_properties_set-undefined_iff_example :
    (Crashes setting_cjson doc_1
      × (handle_properties_set setting_cjson (λ i d. switching) online doc_1 (bytes "id") ≡ none))
    ⊎ ((¬ Crashes setting_cjson doc_1)
        × (next : Gateway) × (handle_properties_set setting_cjson
              (λ i d. switching)
              online
              doc_1
              (bytes "id")
            ≡ some (
                if is_some (setting_cjson.parse doc_1)
                then set_response next (bytes "id")
                else next)))
handle_properties_set-undefined_iff_example =
    handle_properties_set-undefined_iff setting_cjson (λ i d. switching) online doc_1 (bytes "id")

-- A request that sets the alarm.
abbrev smoke : Json
smoke = object (
    field (bytes "service_id") (text (bytes "smokeDetector"))
      (field (bytes "properties") (object (field (bytes "alarm") action end)) end))

abbrev alarm_request : Json
alarm_request = object (field (bytes "services") (array (cons smoke nil)) end)

abbrev alarm_cjson : Cjson
alarm_cjson = reading doc_1 alarm_request

alarm-NamedServices :
    (root found : Json)
    → alarm_cjson.parse doc_1 ≡ some root
    → alarm_cjson.get_object_item root (bytes "services") ≡ some found
    → NamedServices alarm_cjson found
unfolding str_eq
alarm-NamedServices root found e f zero service item a b = ground arith
alarm-NamedServices root found e f (suc i) service item a b = ground arith

alarm_request-parse : alarm_cjson.parse doc_1 ≡ some alarm_request
unfolding str_eq
alarm_request-parse = refl

handle_properties_set-Obeys_example :
    (next : Gateway) × (handle_properties_set alarm_cjson
        (λ i d. switching)
        online
        doc_1
        (bytes "id")
      ≡ some (set_response next (bytes "id")))
    × Obeys 7 (requested alarm_cjson alarm_request) online next
handle_properties_set-Obeys_example =
    handle_properties_set-Obeys alarm_cjson (λ i d. switching) online doc_1 (bytes "id")
      alarm_request 7 alarm_request-parse online-IsOnline (λ i d. refl)
      (λ services f. alarm-NamedServices alarm_request services alarm_request-parse f)
