-- ===== src/Gateway/Settings.antt =====
-- The configuration of the gateway: `setConnectConfig`, `setAuthConfig` and `setMyCallbacks`.
use smart_home_weather_monit.Base.{
  ℕ, ◌≡◌, ◌≢◌, refl, ap, ◌∙◌, Bool, true, false, Option, none, some, List, [], ◌∷◌, ◌++◌, arith,
  ◌==◌, if◌then◌else◌, All,
}
use smart_home_weather_monit.Text.{Bytes, bytes, starts_with}
use smart_home_weather_monit.Cjson.{Cjson, HasString}
use smart_home_weather_monit.Gateway.{
  Gateway, Action, config_text, config_number, callback_set, act,
}

-- `strrchr(text, ':')`, and the text before it; the whole text if it has no colon.
abbrev has_colon : Bytes → Bool
has_colon [] = false
has_colon (c ∷ cs) = if c == b':' then true else has_colon cs

unfoldable pub before_last_colon : Bytes → Bytes
before_last_colon [] = []
before_last_colon (c ∷ cs) =
    let rest = before_last_colon cs in
    if has_colon cs then c ∷ rest else (if c == b':' then [] else c ∷ cs)

-- `strstr(uri, "ssl://") == uri`, then `uri + 6`.
abbrev pub drop_scheme : Bytes → Bytes
drop_scheme (b0 ∷ b1 ∷ b2 ∷ b3 ∷ b4 ∷ b5 ∷ rest) =
    if starts_with (bytes "ssl://") (b0 ∷ b1 ∷ b2 ∷ b3 ∷ b4 ∷ b5 ∷ rest)
    then rest
    else b0 ∷ b1 ∷ b2 ∷ b3 ∷ b4 ∷ b5 ∷ rest
drop_scheme uri = uri

-- The server's address in a `serverUri`.
unfoldable pub server_of_uri : Bytes → Bytes
unfolding starts_with before_last_colon
server_of_uri uri = before_last_colon (drop_scheme uri)

module _ (c : Cjson) where
  open c use {Node, parse, get_object_item, is_string, value_string}

  -- `item && cJSON_IsString(item)`, then `strdup(item->valuestring)`; otherwise the old value.
  abbrev pub string_or : Option Bytes → Option Node → Option Bytes
  string_or old none = old
  string_or old (some item) = if is_string item then value_string item else old

  abbrev pub server_or : Bytes → Option Node → Bytes
  server_or old none = old
  server_or old (some item) =
      if is_string item
      then elim (value_string item) [ none ↦ old | some uri ↦ server_of_uri uri ]
      else old

  -- `setConnectConfig`; `none` is a file that cannot be opened.
  unfoldable pub set_connect_config : Gateway → Option Bytes → Gateway
  unfolding server_of_uri
  set_connect_config g none = g
  set_connect_config g (some content) = elim (parse content) [
    | none ↦ g
    | some json ↦ record g {
      username = string_or g.username (get_object_item json (bytes "deviceId"));
      password = string_or g.password (get_object_item json (bytes "secret"));
      server_ip = server_or g.server_ip (get_object_item json (bytes "serverUri"));
    }
  ]

abbrev pub port : ℕ
port = 8883

abbrev auth_actions : Bytes → Bytes → Bytes → List Action
auth_actions server user pass =
    config_text (bytes "EN_IOTA_CFG_MQTT_ADDR") server
    ∷ config_number (bytes "EN_IOTA_CFG_MQTT_PORT") port
    ∷ config_text (bytes "EN_IOTA_CFG_DEVICEID") user
    ∷ config_text (bytes "EN_IOTA_CFG_DEVICESECRET") pass
    ∷ config_number (bytes "EN_IOTA_CFG_KEEP_ALIVE_TIME") 120
    ∷ config_number (bytes "EN_IOTA_CFG_CONNECT_TIMEOUT") 30
    ∷ config_number (bytes "EN_IOTA_CFG_RETRY_INTERVAL") 10
    ∷ config_number (bytes "EN_IOTA_CFG_QOS") 1
    ∷ []

-- `setAuthConfig`; `serverIp_` is never NULL.
unfoldable pub set_auth_config : Gateway → Gateway
set_auth_config g = elim g.username [
  | none ↦ g
  | some user ↦ elim g.password [
    | none ↦ g
    | some pass ↦ act g (auth_actions g.server_ip user pass)
  ]
]

-- `setMyCallbacks`, by the names of the callbacks.
unfoldable pub set_my_callbacks : Gateway → Gateway
set_my_callbacks g = act g (
    callback_set (bytes "handleAuthSuccess")
    ∷ callback_set (bytes "handleAuthFailure")
    ∷ callback_set (bytes "handleConnectionLost")
    ∷ callback_set (bytes "handleDisAuthSuccess")
    ∷ callback_set (bytes "handleDisAuthFailure")
    ∷ callback_set (bytes "handleSubscribesuccess")
    ∷ callback_set (bytes "handleSubscribeFailure")
    ∷ callback_set (bytes "handlePublishSuccess")
    ∷ callback_set (bytes "handlePublishFailure")
    ∷ callback_set (bytes "handleMessageDown")
    ∷ callback_set (bytes "handleCommandRequest")
    ∷ callback_set (bytes "handlePropertiesSet")
    ∷ callback_set (bytes "handlePropertiesGet")
    ∷ callback_set (bytes "handleEventsDown")
    ∷ [])

-- A text without a colon.
abbrev pub NoColon : Bytes → Type 0
NoColon t = All (λ c. c ≢ b':') t

no_colon : (t : Bytes) → NoColon t → has_colon t ≡ false
no_colon [] h = refl
no_colon (c ∷ t) h = ground (arith, h.0, no_colon t h.1)

has_colon-append : (t rest : Bytes) → has_colon (t ++ b':' ∷ rest) ≡ true
has_colon-append [] rest = refl
has_colon-append (c ∷ t) rest = ground (arith, has_colon-append t rest)

before_last_colon-append :
    (host digits : Bytes) → NoColon digits → before_last_colon (host ++ b':' ∷ digits) ≡ host
unfolding before_last_colon
before_last_colon-append [] digits h = ground (arith, no_colon digits h)
before_last_colon-append (c ∷ host) digits h =
    ground (arith, has_colon-append host digits, before_last_colon-append host digits h)

server_of_uri-ssl :
    (host digits : Bytes)
    → NoColon digits
    → server_of_uri (bytes "ssl://" ++ (host ++ b':' ∷ digits)) ≡ host
unfolding server_of_uri
server_of_uri-ssl host digits h = before_last_colon-append host digits h

-- The old text, or that of a member that is a string.
string_or-HasString :
    (c : Cjson) (root : c.Node) (key t : Bytes) (old : Option Bytes)
    → HasString c root key t
    → string_or c old (c.get_object_item root key) ≡ some t
string_or-HasString c root key t old (n, e, s, v) = ground (arith, e, s, v)

server_or-HasString :
    (c : Cjson) (root : c.Node) (key uri old : Bytes)
    → HasString c root key uri
    → server_or c old (c.get_object_item root key) ≡ server_of_uri uri
server_or-HasString c root key uri old (n, e, s, v) = rw e (rw s (rw v refl))

-- The settings that a file gives, whatever they were before.
abbrev with_settings : Gateway → Bytes → Bytes → Bytes → Gateway
with_settings g user pass server = record g {
  username = some user;
  password = some pass;
  server_ip = server;
}

set_connect_config-reads :
    (c : Cjson) (g : Gateway) (content : Bytes) (root : c.Node) (user pass uri : Bytes)
    → c.parse content ≡ some root
    → HasString c root (bytes "deviceId") user
    → HasString c root (bytes "secret") pass
    → HasString c root (bytes "serverUri") uri
    → set_connect_config c g (some content) ≡ with_settings g user pass (server_of_uri uri)
unfolding set_connect_config
set_connect_config-reads c g content root user pass uri e u p a =
    rw (e, set_connect_config)
      (rw
        (
          string_or-HasString c root (bytes "deviceId") user g.username u,
          string_or-HasString c root (bytes "secret") pass g.password p,
          server_or-HasString c root (bytes "serverUri") uri g.server_ip a,
          set_connect_config,
        )
        refl)

set_auth_config-with_settings :
    (g : Gateway) (user pass server : Bytes)
    → (set_auth_config (with_settings g user pass server)).actions
      ≡ g.actions ++ auth_actions server user pass
unfolding set_auth_config
set_auth_config-with_settings g user pass server = refl

-- If ClientConf.json is read as an object with a device id, a secret and the URI ssl://HOST:PORT, for every
-- HOST and every PORT without a colon, then what the SDK is told by `setAuthConfig` after `setConnectConfig`
-- is HOST, the port 8883 whatever PORT is, that device id and that secret, and then the four numbers of the
-- connection, whatever was configured before.
pub settings_reach_sdk :
    (c : Cjson) (g : Gateway) (content : Bytes) (root : c.Node) (user pass host digits : Bytes)
    → c.parse content ≡ some root
    → HasString c root (bytes "deviceId") user
    → HasString c root (bytes "secret") pass
    → HasString c root (bytes "serverUri") (bytes "ssl://" ++ (host ++ b':' ∷ digits))
    → NoColon digits
    → (set_auth_config (set_connect_config c g (some content))).actions
      ≡ g.actions
        ++ config_text (bytes "EN_IOTA_CFG_MQTT_ADDR") host
          ∷ config_number (bytes "EN_IOTA_CFG_MQTT_PORT") 8883
          ∷ config_text (bytes "EN_IOTA_CFG_DEVICEID") user
          ∷ config_text (bytes "EN_IOTA_CFG_DEVICESECRET") pass
          ∷ config_number (bytes "EN_IOTA_CFG_KEEP_ALIVE_TIME") 120
          ∷ config_number (bytes "EN_IOTA_CFG_CONNECT_TIMEOUT") 30
          ∷ config_number (bytes "EN_IOTA_CFG_RETRY_INTERVAL") 10
          ∷ config_number (bytes "EN_IOTA_CFG_QOS") 1
          ∷ []
settings_reach_sdk c g content root user pass host digits e u p a h =
    let uri = bytes "ssl://" ++ (host ++ b':' ∷ digits) in
    ap (λ k. (set_auth_config k).actions)
      (set_connect_config-reads c g content root user pass uri e u p a)
    ∙ set_auth_config-with_settings g user pass (server_of_uri uri)
    ∙ ap (λ server. g.actions ++ auth_actions server user pass) (server_of_uri-ssl host digits h)
