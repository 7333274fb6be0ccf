-- ===== src/Server.antt =====
-- The TCP server, 1_服务器_客户端/1_客户端/2_tcp_server_多线程并发.c (the copy in 2_多线程并发server is
-- the same text): the globals, and what `handle_client` does with them under the mutex.
pub mod Threads
pub mod Startup
pub mod Invariant
pub mod Safety
pub mod Routing
pub mod Identity
pub mod Broker
pub mod Overtaking
mod Tests
use smart_home_weather_monit.Base.{
  ℕ, Bool, true, false, Option, none, some, List, [], ◌∷◌, ◌++◌, ◌==◌, if◌then◌else◌,
}
use smart_home_weather_monit.Text.{Bytes, bytes, contains, received, text_of}

abbrev pub buffer_size : ℕ
buffer_size = 1024

-- `client_a_fd`, `client_b_fd` and `client_c_fd`; `none` is -1.
pub record Clients : Type 0 where
  pub client_a : Option ℕ
  pub client_b : Option ℕ
  pub client_c : Option ℕ

abbrev pub no_clients : Clients
no_clients = record { client_a = none; client_b = none; client_c = none }

-- What a thread does to a descriptor.
pub data Action : Type 0 where
  sent : ℕ → Bytes → Action
  closed : ℕ → Action

abbrev pub b_connected : Bytes
b_connected = bytes "CLIENT_B_CONNECTED"

abbrev pub c_connected : Bytes
c_connected = bytes "CLIENT_C_CONNECTED"

abbrev pub connected : Bytes
connected = bytes "CONNECTED"

-- `fd != -1`, then one send.
abbrev pub send_if : Option ℕ → Bytes → List Action
send_if none msg = []
send_if (some fd) msg = sent fd msg ∷ []

-- `client_fd == client_x_fd`
abbrev pub is_fd : Option ℕ → ℕ → Bool
is_fd none fd = false
is_fd (some x) fd = x == fd

-- `if (client_x_fd != -1) send(client_a_fd, msg, …)` for a client A that has just registered.
abbrev pub notify_new : Option ℕ → ℕ → Bytes → List Action
notify_new none fd msg = []
notify_new (some x) fd msg = sent fd msg ∷ []

-- What follows the identity message: the new globals, the sends and closes, and whether the thread
-- goes on.
pub record Identified : Type 0 where
  pub clients : Clients
  pub actions : List Action
  pub accepted : Bool

-- The critical section that registers a connection.
unfoldable pub identify : Clients → ℕ → Bytes → Identified
identify g fd text =
    if contains text (bytes "CLIENT_A")
    then record {
      clients = record g { client_a = some fd };
      actions = notify_new g.client_b fd b_connected ++ notify_new g.client_c fd c_connected;
      accepted = true;
    }
    else if contains text (bytes "CLIENT_B")
    then record {
      clients = record g { client_b = some fd };
      actions = send_if g.client_a b_connected;
      accepted = true;
    }
    else if contains text (bytes "CLIENT_C")
    then record {
      clients = record g { client_c = some fd };
      actions = send_if g.client_a c_connected;
      accepted = true;
    }
    else record { clients = g; actions = closed fd ∷ []; accepted = false }

-- The critical section that forwards a message.
unfoldable pub forward : Clients → ℕ → Bytes → List Action
forward g fd text =
    if is_fd g.client_a fd
    then send_if g.client_b text ++ send_if g.client_c text
    else if is_fd g.client_b fd
    then send_if g.client_a text
    else if is_fd g.client_c fd
    then send_if g.client_b text
    else []

-- The critical section after a receive that failed.
unfoldable pub unregister : Clients → ℕ → Clients
unregister g fd =
    if is_fd g.client_a fd
    then record g { client_a = none }
    else if is_fd g.client_b fd
    then record g { client_b = none }
    else if is_fd g.client_c fd
    then record g { client_c = none }
    else g

-- The text in `buffer` after one `recv` of `msg`; `none` where the 1024 bytes hold no NUL, and the
-- source's `strstr` and `strlen` read on behind the buffer.
unfoldable pub received_text : Bytes → Option Bytes
unfolding received text_of
received_text msg = text_of (received buffer_size msg)
