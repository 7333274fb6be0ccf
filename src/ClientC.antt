-- ===== src/ClientC.antt =====
-- Client C, 1_服务器_客户端/3_华为云IOT平台/huaweicloud-iot-device-quickstart/client_c.c and client_c.h: its
-- state, and the operations that start, stop and configure it.
pub mod Commands
pub mod Weather
pub mod Messages
pub mod Thread
pub mod Sending
pub mod WeatherJson
pub mod Lifecycle
pub mod Interleaving
mod Tests
use smart_home_weather_monit.Base.{
  ℕ, Bool, true, false, not, ◌&&◌, Option, none, some, List, [], ◌∷◌, ◌++◌, if◌then◌else◌, is_some,
}
use smart_home_weather_monit.Base.Int.{ℤ, pos, is_positive}
use smart_home_weather_monit.Text.{Bytes, bytes}

-- `client_c_state_t`
pub data State : Type 0 where
  disconnected connecting connected error : State

-- `msg_type_t`; `other` is a value that is none of the enumeration's.
pub data MsgType : Type 0 where
  weather command status identity other : MsgType

-- `command_type_t`
pub data Command : Type 0 where
  led_on led_off buzzer_on buzzer_off unknown : Command

-- `errno`, as far as the program asks; EWOULDBLOCK is EAGAIN on Linux.
pub data Errno : Type 0 where
  eagain eintr : Errno
  other_error : ℕ → Errno

-- `client_config`. A callback is a function pointer, known by a number; `none` is NULL.
pub record Config : Type 0 where
  pub server_ip : Bytes
  pub server_port : ℤ
  pub client_id : Bytes
  pub weather_callback : Option ℕ
  pub command_callback : Option ℕ
  pub status_callback : Option ℕ

-- What the caller of `client_c_init` hands over: its pointers may be NULL.
pub record ConfigArgument : Type 0 where
  pub server_ip : Option Bytes
  pub server_port : ℤ
  pub client_id : Option Bytes
  pub weather_callback : Option ℕ
  pub command_callback : Option ℕ
  pub status_callback : Option ℕ

pub data Fifo : Type 0 where
  weather_fifo command_fifo : Fifo

-- What client C does to the world around it, the log apart.
pub data Event : Type 0 where
  status_called : ℕ → State → Event
  command_called : ℕ → Command → Event
  weather_called : ℕ → Bytes → Event
  fifo_written : Fifo → Bytes → Event  -- the text, and a newline
  sent : ℕ → Bytes → Event
  opened : ℕ → Event
  closed : ℕ → Event
  slept : ℕ → Event
  thread_created : Event

-- The globals of client_c.c, `errno`, and what has been done so far.
pub record Client : Type 0 where
  pub config : Config
  pub tcp_socket : Option ℕ
  pub tcp_running : Bool
  pub state : State
  pub debug_mode : Bool
  pub errno : Errno
  pub trace : List Event

abbrev pub emit : Client → Event → Client
emit c e = record c { trace = c.trace ++ e ∷ [] }

abbrev pub initial_config : Config
initial_config = record {
  server_ip = bytes "192.168.16.181";
  server_port = pos 60000;
  client_id = bytes "CLIENT_C";
  weather_callback = none;
  command_callback = none;
  status_callback = none;
}

abbrev pub initial_client : Client
initial_client = record {
  config = initial_config;
  tcp_socket = none;
  tcp_running = false;
  state = disconnected;
  debug_mode = false;
  errno = other_error 0;
  trace = [];
}

-- `if (p) x = p`
abbrev pub given {ℓ} : {A : Type ℓ} → Option A → A → A
given none old = old
given (some new) old = new

abbrev pub given_pointer : Option ℕ → Option ℕ → Option ℕ
given_pointer none old = old
given_pointer (some f) old = some f

-- `client_c_init`: the new globals, and the result.
unfoldable pub client_c_init : Client → Option ConfigArgument → Client × Bool
client_c_init c none = (c, false)
client_c_init c (some a) = (
  record c {
    config = record {
      server_ip = given a.server_ip c.config.server_ip;
      server_port = if is_positive a.server_port then a.server_port else c.config.server_port;
      client_id = given a.client_id c.config.client_id;
      weather_callback = given_pointer a.weather_callback c.config.weather_callback;
      command_callback = given_pointer a.command_callback c.config.command_callback;
      status_callback = given_pointer a.status_callback c.config.status_callback;
    };
  },
  true,
)

-- `update_state`
unfoldable pub update_state : Client → State → Client
update_state c s = elim c.config.status_callback [
  | none ↦ record c { state = s }
  | some f ↦ record c { state = s; trace = c.trace ++ status_called f s ∷ [] }
]

-- `client_c_start`; the flag tells whether `pthread_create` succeeds.
unfoldable pub client_c_start : Client → Bool → Client × Bool
unfolding update_state
client_c_start c created =
    if c.tcp_running
    then (c, true)
    else (let c' = record (update_state c connecting) { tcp_running = true } in
        if created
        then (emit c' thread_created, true)
        else (update_state (record c' { tcp_running = false }) error, false))

-- `shutdown` and `close` of an open socket.
abbrev pub close_socket : Client → Client
close_socket c = elim c.tcp_socket [
  | none ↦ c
  | some fd ↦ record c { tcp_socket = none; trace = c.trace ++ closed fd ∷ [] }
]

-- `client_c_stop`
unfoldable pub client_c_stop : Client → Client
unfolding update_state
client_c_stop c =
    if c.tcp_running
    then update_state (close_socket (record c { tcp_running = false })) disconnected
    else c

-- `client_c_get_state`
abbrev pub client_c_get_state : Client → State
client_c_get_state c = c.state

abbrev pub is_state_connected : State → Bool
is_state_connected connected = true
is_state_connected _ = false

-- `client_c_is_connected`
unfoldable pub client_c_is_connected : Client → Bool
client_c_is_connected c = is_state_connected c.state && is_some c.tcp_socket

-- `client_c_set_debug`
unfoldable pub client_c_set_debug : Client → Bool → Client
client_c_set_debug c enable = record c { debug_mode = enable }

-- `tcp_disconnect`
unfoldable pub tcp_disconnect : Client → Client
unfolding update_state
tcp_disconnect c = elim c.tcp_socket [
  | none ↦ c
  | some fd ↦
      update_state (record c { tcp_socket = none; trace = c.trace ++ closed fd ∷ [] }) disconnected
]
