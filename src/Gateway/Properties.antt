-- ===== src/Gateway/Properties.antt =====
-- `handlePropertiesSet`, and what the services of its request order.
use smart_home_weather_monit.Base.{
  ℕ, zero, suc, ◌+◌, ◌≡◌, refl, true, Option, none, some, List, [], ◌++◌, Option-cases, Bool-cases,
  inl, inr, if◌then◌else◌,
}
use smart_home_weather_monit.Text.{Bytes, bytes, str_eq}
use smart_home_weather_monit.Cjson.{Cjson}
use smart_home_weather_monit.Gateway.{Gateway}
use smart_home_weather_monit.Gateway.Delivery.{IsOnline}
use smart_home_weather_monit.Gateway.Orders.{
  Order, alarm, device, number_order, Obedience, switch_if-Does, set_alarm-Does,
}
use smart_home_weather_monit.Gateway.Announcing.{Obeys, announcing}
use smart_home_weather_monit.Gateway.Requests.{
  Device, led, buzzer, SwitchEnv, set_response, set_service, set_service_item, set_services,
  set_all, handle_properties_set,
}
use smart_home_weather_monit.Gateway.Switching.{NamedServices}

module _ (c : Cjson) where
  open c use {
    Node, parse, get_object_item, is_array, is_string, array_size, array_item, value_string,
  }

  -- What one named service of a request to set properties orders.
  abbrev pub service_orders : Bytes → Node → List Order
  service_orders service properties =
      if str_eq service (bytes "smokeDetector")
      then number_order c alarm (get_object_item properties (bytes "alarm"))
      else if str_eq service (bytes "Control")
      then number_order c (device led) (get_object_item properties (bytes "led_status"))
        ++ number_order c (device buzzer) (get_object_item properties (bytes "buzzer_status"))
      else []

  abbrev pub item_orders : Node → List Order
  item_orders service = elim (get_object_item service (bytes "service_id")) [
    | none ↦ []
    | some service_id ↦ elim (get_object_item service (bytes "properties")) [
      | none ↦ []
      | some properties ↦ elim (value_string service_id) [
        | none ↦ []
        | some name ↦ service_orders name properties
      ]
    ]
  ]

  abbrev pub orders_at : Node → ℕ → List Order
  orders_at services i = elim (array_item services i) [
    | none ↦ []
    | some service ↦ item_orders service
  ]

  -- So many services from the i-th on.
  abbrev pub orders_from : Node → (count i : ℕ) → List Order
  orders_from services zero i = []
  orders_from services (suc count) i = orders_at services i ++ orders_from services count (i + 1)

  -- What a request to set properties orders.
  abbrev pub requested : Node → List Order
  requested root = elim (get_object_item root (bytes "services")) [
    | none ↦ []
    | some services ↦ if is_array services then orders_from services (array_size services) 0 else []
  ]

  -- A service that has a name has it as a string.
  abbrev IsNamed : Node → Type 0
  IsNamed service =
      (item : Node)
      → get_object_item service (bytes "service_id") ≡ some item
      → is_string item ≡ true

  module _ (o : Obedience) where
    service-Does :
        (env : Device → SwitchEnv) (g : Gateway) (name : Bytes) (properties : Node)
        → o.Ready g
        → ((d : Device) → o.Sends (env d))
        → o.Does (service_orders name properties) g (set_service c env g name properties)
    unfolding set_service
    service-Does env g name properties v s =
        elim (Bool-cases (str_eq name (bytes "smokeDetector"))) [
          | inl y ↦
              rw (y, set_service, service_orders)
                (set_alarm-Does c o g (get_object_item properties (bytes "alarm")) v)
          | inr n ↦ elim (Bool-cases (str_eq name (bytes "Control"))) [
            | inl y ↦
                let first =
                  switch_if-Does c o (env led) g led
                    (get_object_item properties (bytes "led_status")) v (s led) in
                rw (n, set_service, service_orders)
                  (rw (y, set_service, service_orders)
                    (o.append first (
                      switch_if-Does c o (env buzzer) _ buzzer
                        (get_object_item properties (bytes "buzzer_status")) (o.ready first)
                        (s buzzer))))
            | inr m ↦
                rw (n, set_service, service_orders)
                  (rw (m, set_service, service_orders) (o.nil g v))
          ]
        ]

    -- A result that is there, and obeys.
    abbrev pub Obeyed : List Order → Gateway → Option Gateway → Type 0
    Obeyed xs g r = (next : Gateway) × (r ≡ some next) × o.Does xs g next

    item-Does :
        (env : Device → SwitchEnv) (g : Gateway) (service : Node)
        → o.Ready g
        → ((d : Device) → o.Sends (env d))
        → IsNamed service
        → Obeyed (item_orders service) g (set_service_item c env g service)
    unfolding set_service_item
    item-Does env g service v s named =
        elim (Option-cases (get_object_item service (bytes "service_id"))) [
          | inl e ↦ rw (e, set_service_item, item_orders) (g, refl, o.nil g v)
          | inr (item, e) ↦ elim (Option-cases (get_object_item service (bytes "properties"))) [
            | inl p ↦
                rw (e, set_service_item, item_orders)
                  (rw (p, set_service_item, item_orders) (g, refl, o.nil g v))
            | inr (properties, p) ↦
                let (name, w) = c.string_value item (named item e) in
                rw (e, set_service_item, item_orders)
                  (rw (p, set_service_item, item_orders)
                    (rw (w, set_service_item, item_orders)
                      (
                        set_service c env g name properties,
                        refl,
                        service-Does env g name properties v s,
                      )))
          ]
        ]

    services-Does :
        (env : ℕ → Device → SwitchEnv) (g : Gateway) (services : Node) (count i : ℕ)
        → o.Ready g
        → ((i : ℕ) (d : Device) → o.Sends (env i d))
        → NamedServices c services
        → Obeyed (orders_from services count i) g (set_services c env g services count i)
    unfolding set_services
    services-Does env g services zero i v s named = (g, refl, o.nil g v)
    services-Does env g services (suc count) i v s named =
        elim (Option-cases (array_item services i)) [
          | inl e ↦
              rw (e, set_services, orders_at) (services-Does env g services count (i + 1) v s named)
          | inr (service, e) ↦
              let (h, f, d) =
                item-Does (env i) g service v (s i) (λ item. named i service item e) in
              let (last, k, p) = services-Does env h services count (i + 1) (o.ready d) s named in
              rw (e, set_services, orders_at) (rw (f, set_services) (last, k, o.append d p))
        ]

    all-Does :
        (env : ℕ → Device → SwitchEnv) (g : Gateway) (root : Node)
        → o.Ready g
        → ((i : ℕ) (d : Device) → o.Sends (env i d))
        → ((services : Node)
            → get_object_item root (bytes "services") ≡ some services
            → NamedServices c services)
        → Obeyed (requested root) g (set_all c env g (get_object_item root (bytes "services")))
    unfolding set_all
    all-Does env g root v s named = elim (Option-cases (get_object_item root (bytes "services"))) [
      | inl e ↦ rw (e, set_all, requested) (g, refl, o.nil g v)
      | inr (services, e) ↦ elim (Bool-cases (is_array services)) [
        | inl y ↦
            rw (e, set_all, requested)
              (rw (y, set_all, requested)
                (services-Does env g services (array_size services) 0 v s (named services e)))
        | inr n ↦ rw (e, set_all, requested) (rw (n, set_all, requested) (g, refl, o.nil g v))
      ]
    ]

    -- Whatever it is to obey, `handlePropertiesSet` does it.
    pub handle_properties_set-Does :
        (env : ℕ → Device → SwitchEnv) (g : Gateway) (message request : Bytes) (root : Node)
        → parse message ≡ some root
        → o.Ready g
        → ((i : ℕ) (d : Device) → o.Sends (env i d))
        → ((services : Node)
            → get_object_item root (bytes "services") ≡ some services
            → NamedServices c services)
        → (next : Gateway) × (handle_properties_set c env g message request
            ≡ some (set_response next request))
          × o.Does (requested root) g next
    unfolding handle_properties_set
    handle_properties_set-Does env g message request root e v s named =
        let (next, f, d) = all-Does env g root v s named in
        (next, rw (e, handle_properties_set) (rw (f, handle_properties_set) refl), d)

  -- While client C is online and its sends succeed, a request to set properties whose text is JSON and
  -- whose services are named by strings is answered after the gateway has done what the services order,
  -- in the order of the list and, in a service, the LED before the buzzer: of several values for one
  -- device the last one is kept, and the server is told each of them.
  pub handle_properties_set-Obeys :
      (env : ℕ → Device → SwitchEnv) (g : Gateway) (message request : Bytes) (root : Node) (fd : ℕ)
      → parse message ≡ some root
      → IsOnline g fd
      → ((i : ℕ) (d : Device) → (env i d).sends ≡ true)
      → ((services : Node)
          → get_object_item root (bytes "services") ≡ some services
          → NamedServices c services)
      → (next : Gateway) × (handle_properties_set c env g message request
          ≡ some (set_response next request))
        × Obeys fd (requested root) g next
  handle_properties_set-Obeys env g message request root fd =
      handle_properties_set-Does (announcing fd) env g message request root
