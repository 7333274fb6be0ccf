-- ===== src/Gateway.antt =====
-- The gateway program, 1_服务器_客户端/3_华为云IOT平台/huaweicloud-iot-device-quickstart/AgentLiteDemo.c: the
-- globals that its threads and callbacks share. The cloud SDK (IOTA_…) and cJSON are parameters.
pub mod Fifo
pub mod Listeners
pub mod Settings
pub mod Requests
pub mod Reports
pub mod Cloud
pub mod Main
pub mod Delivery
pub mod Switching
pub mod Buffers
pub mod Threads
pub mod Exit
pub mod Schema
pub mod Typed
pub mod Pipe
pub mod Orders
pub mod Announcing
pub mod Keeping
pub mod Interleaving
pub mod Commands
pub mod Properties
mod Samples
mod Tests
mod MainTests
mod RunTests
mod PipeTests
use smart_home_weather_monit.Base.{
  ℕ, Bool, true, false, ◌&&◌, Option, none, some, List, [], ◌∷◌, ◌++◌, if◌then◌else◌,
}
use smart_home_weather_monit.Base.Int.{ℤ, pos}
use smart_home_weather_monit.Text.{Bytes, bytes, strstr}
use smart_home_weather_monit.ClientC.{Client, initial_client, client_c_is_connected}
use smart_home_weather_monit.ClientC.Sending.{client_c_send_command}

-- The FIFO threads: `fifo_listener_thread` and `command_handler_thread_func`.
pub data Worker : Type 0 where
  fifo_listener command_handler : Worker

-- What the program hands to the SDK, and what it writes into the command FIFO.
pub data Action : Type 0 where
  config_text : Bytes → Bytes → Action  -- IOTA_ConfigSetStr
  config_number : Bytes → ℕ → Action  -- IOTA_ConfigSetUint
  callback_set : Bytes → Action  -- IOTA_SetCallback, IOTA_SetCallbackWithTopic
  connect_called : Action  -- IOTA_Connect
  disconnect_called : Action
  destroy_called : Action
  command_answered : Bytes → Action  -- IOTA_CommandResponse
  set_answered : Bytes → Action  -- IOTA_PropertiesSetResponse
  reported : List (Bytes × Option Bytes) → Action  -- IOTA_PropertiesReport
  message_reported : Action  -- IOTA_MessageReport
  directory_made : Action
  command_fifo_made : Action
  weather_fifo_made : Action
  command_written : Bytes → Action
  newline_written : Action
  fifo_closed : ℕ → Action
  thread_created : Worker → Action
  thread_joined : Worker → Action
  slept_ms : ℕ → Action
  freed : Bytes → Action

pub record Gateway : Type 0 where
  pub alarm_value : ℤ
  pub led_status : ℤ
  pub buzzer_status : ℤ
  pub server_ip : Bytes
  pub username : Option Bytes
  pub password : Option Bytes
  pub disconnected : Bool
  pub client_c_initialized : Bool
  pub command_handler_running : Bool
  pub has_command_handler : Bool  -- command_handler_thread is not 0
  pub fifo_listener_running : Bool
  pub has_fifo_listener : Bool
  pub weather_fifo_fd : Option ℕ
  pub last_weather : Bytes  -- last_weather_json
  pub client : Client
  pub actions : List Action

abbrev pub initial_gateway : Gateway
initial_gateway = record {
  alarm_value = pos 0;
  led_status = pos 0;
  buzzer_status = pos 0;
  server_ip = [];
  username = none;
  password = none;
  disconnected = false;
  client_c_initialized = false;
  command_handler_running = false;
  has_command_handler = false;
  fifo_listener_running = false;
  has_fifo_listener = false;
  weather_fifo_fd = none;
  last_weather = [];
  client = initial_client;
  actions = [];
}

abbrev pub act : Gateway → List Action → Gateway
act g as' = record g { actions = g.actions ++ as' }

-- `if (client_c_initialized && client_c_is_connected()) client_c_send_command(cmd)`; the flag is the
-- success of `send`.
unfoldable pub send_if_connected : Gateway → Bytes → Bool → Gateway
send_if_connected g text ok =
    if g.client_c_initialized && client_c_is_connected g.client
    then record g { client = (client_c_send_command g.client (some text) ok).0 }
    else g
