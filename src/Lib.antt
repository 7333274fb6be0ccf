-- ===== src/Lib.antt =====
-- The smart home weather system: a TCP server with three clients, and the gateway to the cloud.
--
-- Client A asks a weather service and sends its reports to the server; client B sends city names;
-- client C runs inside the gateway, parses the reports, and passes commands between the server and
-- the cloud. The server keeps one descriptor for each role and forwards by role. Client C and the
-- gateway also talk through two FIFOs.
--
-- - Base, Text: shared names, lists over the native numbers, and the C string functions that the
--   programs call. A byte string is a list of numbers; a C text ends at its first 0.
-- - Cjson: the calls of the vendored 1_服务器_客户端/1_客户端/cJSON, a parameter. Cjson/Sample is a small
--   reading of it for concrete runs.
-- - Forecast: 1_服务器_客户端/1_客户端/forecast.c. City is current_city with its setter and getter, Response
--   the read loop and the search for the JSON text, Extract the lookups and the printed report,
--   Query all of get_weather_data, Resources what a query holds, Lengths how long a report is.
-- - Server: 1_服务器_客户端/1_客户端/2_tcp_server_多线程并发.c. Server has the critical sections of
--   handle_client, Threads the interleaved steps of all threads, Startup main; Invariant, Safety,
--   Routing, Identity and Overtaking are proofs, and Broker compares the threads with an abstract
--   broker of roles.
-- - ClientA, ClientB: client_A.c and client_B.c beside it. Retry, Waiting, Serving and Lengths are
--   proofs about their loops, ClientA/Main and ClientB/Dialogue about their main functions;
--   ClientA/Handshake runs client A on what the server sends.
-- - Netwrap: netwrap/wrap.c beside them.
-- - ClientC: client_c.c and client_c.h of 1_服务器_客户端/3_华为云IOT平台/huaweicloud-iot-device-quickstart.
--   Commands is parse_command_type, Weather and Messages are parse_and_handle_message, Sending the
--   two senders, WeatherJson parse_weather_json, Thread the client's thread, Interleaving a stop of
--   another caller while it connects. Weather/Lines, Weather/Bounds, Lifecycle and the modules
--   below Thread are proofs.
-- - Gateway: AgentLiteDemo.c of the same directory. Fifo and Listeners are the FIFOs and the two
--   threads, Settings and Cloud the SDK's configuration and notices, Requests and Reports what is
--   exchanged with the cloud, Main the main function; Orders describes what a request can order and
--   what it is to obey, Commands and Properties compare the two handlers with it, for the two ways
--   to obey in Announcing and Keeping; Interleaving mixes the requests with the reports, each in
--   two steps, and the threads. Pipe interleaves the writer and the two readers of the weather
--   FIFO, with proofs below it; Schema and Typed are about the types of what is reported; Threads
--   is about the creation and joining of the two threads; Switching, Delivery, Buffers and Exit are
--   proofs.
-- - System: the parts together. Report and RoundTrip go from forecast.c's printed report to client
--   C's JSON text, Cloud and Delivery from there to the cloud, City, Dialogue and Session from the
--   city names that client B sends to the reports that it shows, Echo from a command for client C
--   back to the server; Reconnect is about a client B that comes back while client A serves; Sizes
--   compares client A's messages with the buffers of their receivers. In these a message arrives in
--   one recv; ClientA/Handshake has no such bound.
--
-- What the system answers (recv, read, send, the allocator, thread creation) is an argument of the
-- model: a value, or a list with one entry for each call, so that a loop that waits for the outside
-- is a recursion on that list and needs no fuel. A loop with a bound of its own counts as the
-- source does. An operation whose C code reads behind a string, or compares NULL, returns none or
-- undefined there.
--
-- Not modelled: the printed log, sleeping where nothing depends on it, how long `pthread_join` and
-- the `open` of a FIFO wait, a second thread of client C, the vendored cJSON and the cloud SDK, the
-- build files, and client_C.c, which holds a comment only.
pub mod Base
pub mod Text
pub mod Cjson
pub mod Forecast
pub mod Server
pub mod ClientA
pub mod ClientB
pub mod Netwrap
pub mod ClientC
pub mod Gateway
pub mod System
