-- ===== src/Gateway/Cloud.antt =====
-- The callbacks of the cloud connection.
use smart_home_weather_monit.Base.{true, false, [], ◌∷◌}
use smart_home_weather_monit.Gateway.{Gateway, connect_called, slept_ms, act}

pub data Notice : Type 0 where
  auth_success auth_failure connection_lost dis_auth_success dis_auth_failure : Notice
  subscribe_success subscribe_failure publish_success publish_failure : Notice
  message_down events_down : Notice

-- `handleAuthSuccess` to `handleEventsDown`, without their prints.
unfoldable pub handle_notice : Gateway → Notice → Gateway
handle_notice g auth_success = record g { disconnected = false }
handle_notice g auth_failure = act g (slept_ms 3000 ∷ connect_called ∷ [])
handle_notice g connection_lost = act g (slept_ms 5000 ∷ connect_called ∷ [])
handle_notice g dis_auth_success = record g { disconnected = true }
handle_notice g dis_auth_failure = g
handle_notice g subscribe_success = g
handle_notice g subscribe_failure = g
handle_notice g publish_success = g
handle_notice g publish_failure = g
handle_notice g message_down = g
handle_notice g events_down = g
