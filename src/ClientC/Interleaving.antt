-- ===== src/ClientC/Interleaving.antt =====
-- `tcp_connect_to_server` in parts, for a `client_c_stop` of another thread that comes between them: the thread
-- of client C holds no lock while it connects.
use smart_home_weather_monit.Base.{ℕ, some}
use smart_home_weather_monit.ClientC.{Client, connected, opened, emit, update_state}

-- Up to the return of a `connect` that succeeds.
unfoldable pub open_connection : Client → ℕ → Client
open_connection c fd = emit (record c { tcp_socket = some fd }) (opened fd)

-- `update_state(CLIENT_C_CONNECTED)`
unfoldable pub announce_connection : Client → Client
unfolding update_state
announce_connection c = update_state c connected
