-- ===== src/Gateway/Commands.antt =====
-- `handleCommandRequest`, and that it does what its request asks for.
mod Asked
pub use Asked.{
  command_name, command_orders, commanded, HasString, Asks, Commanded, asked, not_asked,
  commanded-Commanded, Commanded-unique,
}
use smart_home_weather_monit.Base.{
  ℕ, ◌≡◌, refl, sym, arith, ◌∷◌, ◌⊎◌, true, none, some, List, [], Option-cases, Bool-cases, inl,
  inr, if◌then◌else◌,
}
use smart_home_weather_monit.Text.{Bytes, bytes, str_eq}
use smart_home_weather_monit.Base.Int.{ℤ}
use smart_home_weather_monit.Text.Search.{str_eq_iff}
use smart_home_weather_monit.Cjson.{Cjson}
use smart_home_weather_monit.Gateway.{Gateway}
use smart_home_weather_monit.Gateway.Delivery.{IsOnline}
use smart_home_weather_monit.Gateway.Orders.{Order, device, number_order, Obedience, switch_if-Does}
use smart_home_weather_monit.Gateway.Announcing.{Obeys, announcing}
use smart_home_weather_monit.Gateway.Requests.{
  Device, led, buzzer, SwitchEnv, string_item, number_item, command_device, command_response,
  run_command, run_request, handle_command_request,
}

module _ (c : Cjson) where
  open c use {Node, parse, get_object_item, is_string, is_number, value_string, value_int}

  module _ (o : Obedience) where
    command-Does :
        (env : SwitchEnv) (g : Gateway) (service command : Bytes) (paras : Node)
        → o.Ready g
        → o.Sends env
        → o.Does
            (command_orders c service command paras)
            g
            (run_command c env g service command paras)
    unfolding run_command
    command-Does env g service command paras v s =
        elim (Bool-cases (str_eq service (bytes "Control"))) [
          | inr n ↦ rw (n, run_command, command_orders) (o.nil g v)
          | inl y ↦ elim (Option-cases (command_device c command)) [
            | inl e ↦
                rw (y, run_command, command_orders)
                  (rw (e, run_command, command_orders) (o.nil g v))
            | inr (d, e) ↦
                rw (y, run_command, command_orders)
                  (rw (e, run_command, command_orders)
                    (switch_if-Does c o env g d (get_object_item paras (bytes "action")) v s))
          ]
        ]

    request-Does :
        (env : SwitchEnv) (g : Gateway) (root : Node)
        → o.Ready g
        → o.Sends env
        → o.Does (commanded c root) g (run_request c env g root)
    unfolding run_request
    request-Does env g root v s =
        elim (Option-cases (string_item c (get_object_item root (bytes "service_id")))) [
          | inl e ↦ rw (e, run_request, commanded) (o.nil g v)
          | inr (service, e) ↦
              elim (Option-cases (string_item c (get_object_item root (bytes "command_name")))) [
                | inl f ↦
                    rw (e, run_request, commanded) (rw (f, run_request, commanded) (o.nil g v))
                | inr (command, f) ↦
                    rw (e, run_request, commanded)
                      (rw (f, run_request, commanded)
                        (elim (Option-cases (get_object_item root (bytes "paras"))) [
                          | inl h ↦ rw (h, run_request, commanded) (o.nil g v)
                          | inr (paras, h) ↦
                              rw (h, run_request, commanded)
                                (command-Does env g service command paras v s)
                        ]))
              ]
        ]

    -- Whatever it is to obey, `handleCommandRequest` does it.
    pub handle_command_request-Does :
        (env : SwitchEnv) (g : Gateway) (message request : Bytes) (root : Node)
        → parse message ≡ some root
        → o.Ready g
        → o.Sends env
        → (next : Gateway) × (handle_command_request c env g message request
            ≡ command_response next request)
          × o.Does (commanded c root) g next
    unfolding handle_command_request
    handle_command_request-Does env g message request root e v s =
        (run_request c env g root, rw (e, handle_command_request) refl, request-Does env g root v s)

  -- While client C is online and its sends succeed, a command request whose text is JSON is answered
  -- after the gateway has done just what the request orders: if its service is "Control", its command is
  -- that of the LED or of the buzzer, and its parameters have a number as action, then the status that is
  -- kept of that device is the action, and the server is told once; and nothing if not.
  pub handle_command_request-Obeys :
      (env : SwitchEnv) (g : Gateway) (message request : Bytes) (root : Node) (fd : ℕ)
      → parse message ≡ some root
      → IsOnline g fd
      → env.sends ≡ true
      → (next : Gateway) × (xs : List Order) × Commanded c root xs
        × (handle_command_request c env g message request ≡ command_response next request)
        × Obeys fd xs g next
  handle_command_request-Obeys env g message request root fd e v s =
      let (next, f, done) =
        handle_command_request-Does (announcing fd) env g message request root e v s in
      (next, commanded c root, commanded-Commanded c root, f, done)
