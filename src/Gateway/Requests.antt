-- ===== src/Gateway/Requests.antt =====
-- The requests of the cloud: `handleCommandRequest`, `handlePropertiesSet`, `handlePropertiesGet`, and
-- the answers to them.
use smart_home_weather_monit.Base.{
  ℕ, zero, suc, ◌+◌, Bool, Option, none, some, [], ◌∷◌, ◌++◌, if◌then◌else◌,
}
use smart_home_weather_monit.Base.Int.{ℤ, is_nonzero}
use smart_home_weather_monit.Text.{Bytes, bytes, str_eq, snprintf}
use smart_home_weather_monit.Cjson.{Cjson}
use smart_home_weather_monit.Gateway.{
  Gateway, command_answered, set_answered, act, send_if_connected,
}
use smart_home_weather_monit.Gateway.Fifo.{WriteEnv, write_command_to_fifo}

pub data Device : Type 0 where
  led buzzer : Device

abbrev pub device_name : Device → Bytes
device_name led = bytes "LED_"
device_name buzzer = bytes "BUZZER_"

-- `snprintf(cmd, sizeof(cmd), "LED_%s", action ? "ON" : "OFF")`
unfoldable pub device_command : Device → ℤ → Bytes
device_command d action =
    snprintf 32 (device_name d ++ (if is_nonzero action then bytes "ON" else bytes "OFF"))

abbrev pub set_status : Gateway → Device → ℤ → Gateway
set_status g led action = record g { led_status = action }
set_status g buzzer action = record g { buzzer_status = action }

-- What the system answers while a device is switched: the FIFO, and the success of `send`.
pub record SwitchEnv : Type 0 where
  pub fifo : WriteEnv
  pub sends : Bool

-- The new status, the command into the FIFO, and the command over TCP.
unfoldable pub switch_device : SwitchEnv → Gateway → Device → ℤ → Gateway
unfolding device_command write_command_to_fifo send_if_connected
switch_device env g d action =
    let cmd = device_command d action in
    send_if_connected (write_command_to_fifo env.fifo (set_status g d action) cmd).0 cmd env.sends

-- `Test_commandResponse`, `Test_propSetResponse`
abbrev pub command_response : Gateway → Bytes → Gateway
command_response g request = act g (command_answered request ∷ [])

abbrev pub set_response : Gateway → Bytes → Gateway
set_response g request = act g (set_answered request ∷ [])

-- `handlePropertiesGet` and `Test_propGetResponse`, which only print.
abbrev pub handle_properties_get : Gateway → Bytes → Bytes → Gateway
handle_properties_get g message request = g

module _ (c : Cjson) where
  open c use {
    Node, parse, get_object_item, is_array, is_string, is_number, array_size, array_item,
    value_string, value_int,
  }

  -- `item && cJSON_IsString(item)`, then its `valuestring`.
  abbrev pub string_item : Option Node → Option Bytes
  string_item none = none
  string_item (some item) = if is_string item then value_string item else none

  -- `item && cJSON_IsNumber(item)`, then its `valueint`.
  abbrev pub number_item : Option Node → Option ℤ
  number_item none = none
  number_item (some item) = if is_number item then some (value_int item) else none

  -- A device is switched if the item is a number.
  abbrev pub switch_if : SwitchEnv → Gateway → Device → Option Node → Gateway
  switch_if env g d item = elim (number_item item) [
    | none ↦ g
    | some action ↦ switch_device env g d action
  ]

  -- The device that a command of the service "Control" is for.
  abbrev pub command_device : Bytes → Option Device
  command_device command =
      if str_eq command (bytes "control_led")
      then some led
      else if str_eq command (bytes "control_buzzer")
      then some buzzer
      else none

  -- The part of `handleCommandRequest` under `service_id && command_name && paras`.
  unfoldable pub run_command : SwitchEnv → Gateway → Bytes → Bytes → Node → Gateway
  unfolding str_eq switch_device
  run_command env g service command paras =
      if str_eq service (bytes "Control")
      then elim (command_device command) [
        | none ↦ g
        | some d ↦ switch_if env g d (get_object_item paras (bytes "action"))
      ]
      else g

  -- The command of a parsed request, if all its parts are there.
  unfoldable pub run_request : SwitchEnv → Gateway → Node → Gateway
  unfolding run_command
  run_request env g root = elim (string_item (get_object_item root (bytes "service_id"))) [
    | none ↦ g
    | some service ↦ elim (string_item (get_object_item root (bytes "command_name"))) [
      | none ↦ g
      | some command ↦ elim (get_object_item root (bytes "paras")) [
        | none ↦ g
        | some paras ↦ run_command env g service command paras
      ]
    ]
  ]

  -- `handleCommandRequest`
  unfoldable pub handle_command_request : SwitchEnv → Gateway → Bytes → Bytes → Gateway
  unfolding run_request
  handle_command_request env g message request = elim (parse message) [
    | none ↦ g
    | some root ↦ command_response (run_request env g root) request
  ]

  abbrev pub set_alarm : Gateway → Option Node → Gateway
  set_alarm g item = elim (number_item item) [
    | none ↦ g
    | some value ↦ record g { alarm_value = value }
  ]

  -- One service of a request to set properties.
  unfoldable pub set_service : (Device → SwitchEnv) → Gateway → Bytes → Node → Gateway
  unfolding str_eq switch_device
  set_service env g service properties =
      if str_eq service (bytes "smokeDetector")
      then set_alarm g (get_object_item properties (bytes "alarm"))
      else if str_eq service (bytes "Control")
      then switch_if (env buzzer)
          (switch_if (env led) g led (get_object_item properties (bytes "led_status"))) buzzer
          (get_object_item properties (bytes "buzzer_status"))
      else g

  -- `service_id_obj && properties`, then `strcmp` of a `valuestring`: `none` if that is NULL.
  unfoldable pub set_service_item : (Device → SwitchEnv) → Gateway → Node → Option Gateway
  unfolding set_service
  set_service_item env g service = elim (get_object_item service (bytes "service_id")) [
    | none ↦ some g
    | some service_id ↦ elim (get_object_item service (bytes "properties")) [
      | none ↦ some g
      | some properties ↦ elim (value_string service_id) [
        | none ↦ none
        | some name ↦ some (set_service env g name properties)
      ]
    ]
  ]

  -- The loop over the services from the i-th on; `get_object_item` of NULL is NULL.
  unfoldable pub set_services :
      (ℕ → Device → SwitchEnv) → Gateway → Node → (count i : ℕ) → Option Gateway
  unfolding set_service_item
  set_services env g services zero i = some g
  set_services env g services (suc count) i = elim (array_item services i) [
    | none ↦ set_services env g services count (i + 1)
    | some service ↦ elim (set_service_item (env i) g service) [
      | none ↦ none
      | some next ↦ set_services env next services count (i + 1)
    ]
  ]

  -- `services && cJSON_IsArray(services)`
  unfoldable pub set_all : (ℕ → Device → SwitchEnv) → Gateway → Option Node → Option Gateway
  unfolding set_services
  set_all env g none = some g
  set_all env g (some services) =
      if is_array services then set_services env g services (array_size services) 0 else some g

  -- `handlePropertiesSet`
  unfoldable pub handle_properties_set :
      (ℕ → Device → SwitchEnv) → Gateway → Bytes → Bytes → Option Gateway
  unfolding set_all
  handle_properties_set env g message request = elim (parse message) [
    | none ↦ some g
    | some root ↦ elim (set_all env g (get_object_item root (bytes "services"))) [
      | none ↦ none
      | some next ↦ some (set_response next request)
    ]
  ]
