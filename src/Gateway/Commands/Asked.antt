-- ===== src/Gateway/Commands/Asked.antt =====
-- What a command request of the cloud asks for, and what the handler's reading of it has to do with that.
use smart_home_weather_monit.Base.{
  ◌≡◌, refl, sym, arith, ◌∷◌, ◌⊎◌, true, none, some, List, [], Option-cases, Bool-cases, inl, inr,
  if◌then◌else◌,
}
use smart_home_weather_monit.Text.{Bytes, bytes, str_eq}
use smart_home_weather_monit.Base.Int.{ℤ}
use smart_home_weather_monit.Text.Search.{str_eq_iff}
use smart_home_weather_monit.Cjson.{Cjson}
use smart_home_weather_monit.Gateway.Orders.{Order, device, number_order}
use smart_home_weather_monit.Gateway.Requests.{
  Device, led, buzzer, string_item, number_item, command_device,
}

-- The commands of the service "Control".
abbrev pub command_name : Device → Bytes
command_name led = bytes "control_led"
command_name buzzer = bytes "control_buzzer"

module _ (c : Cjson) where
  open c use {Node, parse, get_object_item, is_string, is_number, value_string, value_int}

  -- The orders that the handler finds in a command.
  abbrev pub command_orders : Bytes → Bytes → Node → List Order
  command_orders service command paras =
      if str_eq service (bytes "Control")
      then elim (command_device c command) [
        | none ↦ []
        | some d ↦ number_order c (device d) (get_object_item paras (bytes "action"))
      ]
      else []

  -- The orders that the handler finds in a request.
  abbrev pub commanded : Node → List Order
  commanded root = elim (string_item c (get_object_item root (bytes "service_id"))) [
    | none ↦ []
    | some service ↦ elim (string_item c (get_object_item root (bytes "command_name"))) [
      | none ↦ []
      | some command ↦ elim (get_object_item root (bytes "paras")) [
        | none ↦ []
        | some paras ↦ command_orders service command paras
      ]
    ]
  ]

  -- The member of that name is the string.
  abbrev pub HasString : Node → Bytes → Bytes → Type 0
  HasString root name text =
      (item : Node) × (get_object_item root name ≡ some item)
      × (is_string item ≡ true)
      × (value_string item ≡ some text)

  -- The request asks for an action of the device.
  pub record Asks (root : Node) (d : Device) (n : ℤ) : Type 0 where
    pub service : HasString root (bytes "service_id") (bytes "Control")
    pub command : HasString root (bytes "command_name") (command_name d)
    pub paras : Node
    pub has_paras : get_object_item root (bytes "paras") ≡ some paras
    pub action : Node
    pub has_action : get_object_item paras (bytes "action") ≡ some action
    pub is_action : is_number action ≡ true
    pub value : value_int action ≡ n

  -- What a request orders: what it asks for, or nothing if it asks for nothing.
  pub data Commanded (root : Node) : List Order → Type 0 where
    asked : (d : Device) (n : ℤ) → Asks root d n → Commanded root (device d n ∷ [])
    not_asked : ((d : Device) (n : ℤ) → Asks root d n → ⊥) → Commanded root []

  string_item-some :
      (root : Node) (name text : Bytes)
      → HasString root name text
      → string_item c (get_object_item root name) ≡ some text
  string_item-some root name text (item, e, s, v) = ground (arith, e, s, v)

  string_item-HasString :
      (root : Node) (name text : Bytes)
      → string_item c (get_object_item root name) ≡ some text
      → HasString root name text
  string_item-HasString root name text h = elim (Option-cases (get_object_item root name)) [
    | inl e ↦ absurd (ground (arith, e, h))
    | inr (item, e) ↦ elim (Bool-cases (is_string item)) [
      | inl s ↦ (item, e, s, ground (arith, e, s, h))
      | inr n ↦ absurd (ground (arith, e, n, h))
    ]
  ]

  command_device-name : (d : Device) → command_device c (command_name d) ≡ some d
  unfolding str_eq
  command_device-name led = refl
  command_device-name buzzer = refl

  command_device_iff :
      (command : Bytes) (d : Device) → command_device c command ≡ some d → command ≡ command_name d
  command_device_iff command led e = elim (Bool-cases (str_eq command (bytes "control_led"))) [
    | inl y ↦ (str_eq_iff command (bytes "control_led")).0 y
    | inr n ↦ absurd (ground (arith, e, n))
  ]
  command_device_iff command buzzer e =
      elim (Bool-cases (str_eq command (bytes "control_buzzer"))) [
        | inl y ↦ (str_eq_iff command (bytes "control_buzzer")).0 y
        | inr n ↦ absurd (ground (arith, e, n))
      ]

  asked-commanded :
      (root : Node) (d : Device) (n : ℤ) → Asks root d n → commanded root ≡ device d n ∷ []
  asked-commanded root d n a =
      let e = string_item-some root (bytes "service_id") (bytes "Control") a.service in
      let f = string_item-some root (bytes "command_name") (command_name d) a.command in
      let k = (str_eq_iff (bytes "Control") (bytes "Control")).1 refl in
      rw (e, commanded)
        (rw (f, commanded)
          (rw (a.has_paras, commanded)
            (rw (k, command_orders, commanded)
              (rw (command_device-name d, command_orders, commanded)
                (ground (arith, a.has_action, a.is_action, a.value))))))

  number_item-some :
      (root : Node) (name : Bytes) (n : ℤ)
      → number_item c (get_object_item root name) ≡ some n
      → (item : Node) × (get_object_item root name ≡ some item)
        × (is_number item ≡ true)
        × (value_int item ≡ n)
  number_item-some root name n h = elim (Option-cases (get_object_item root name)) [
    | inl e ↦ absurd (ground (arith, e, h))
    | inr (item, e) ↦ elim (Bool-cases (is_number item)) [
      | inl s ↦ (item, e, s, ground (arith, e, s, h))
      | inr f ↦ absurd (ground (arith, e, f, h))
    ]
  ]

  paras-cases :
      (paras : Node) (service command : Bytes)
      → (command_orders service command paras ≡ [])
        ⊎ ((d : Device) × (n : ℤ) × (service ≡ bytes "Control")
            × (command ≡ command_name d)
            × (number_item c (get_object_item paras (bytes "action")) ≡ some n))
  paras-cases paras service command = elim (Bool-cases (str_eq service (bytes "Control"))) [
    | inr f ↦ inl (ground (arith, f))
    | inl y ↦ elim (Option-cases (command_device c command)) [
      | inl e ↦ inl (rw (y, command_orders) (rw (e, command_orders) refl))
      | inr (d, e) ↦ elim (Option-cases (number_item c (get_object_item paras (bytes "action")))) [
        | inl m ↦ inl (
            rw (y, command_orders)
              (rw (e, command_orders) (rw (m, command_orders, number_order) refl)))
        | inr (n, m) ↦
            let s = (str_eq_iff service (bytes "Control")).0 y in
            inr (d, n, s, command_device_iff command d e, m)
      ]
    ]
  ]

  commanded-cases : (root : Node) → (commanded root ≡ []) ⊎ ((d : Device) × (n : ℤ) × Asks root d n)
  commanded-cases root =
      elim (Option-cases (string_item c (get_object_item root (bytes "service_id")))) [
        | inl e ↦ inl (rw (e, commanded) refl)
        | inr (service, e) ↦
            elim (Option-cases (string_item c (get_object_item root (bytes "command_name")))) [
              | inl f ↦ inl (rw (e, commanded) (rw (f, commanded) refl))
              | inr (command, f) ↦ elim (Option-cases (get_object_item root (bytes "paras"))) [
                | inl h ↦ inl (rw (e, commanded) (rw (f, commanded) (rw (h, commanded) refl)))
                | inr (paras, h) ↦ elim (paras-cases paras service command) [
                  | inl k ↦ inl (rw (e, commanded) (rw (f, commanded) (rw (h, commanded) k)))
                  | inr (d, n, s, name, m) ↦
                      let (action, l, is, value) = number_item-some paras (bytes "action") n m in
                      inr (
                        d,
                        n,
                        record {
                          service =
                              rw s at (string_item-HasString root (bytes "service_id") service e);
                          command =
                              rw name at
                                (string_item-HasString root (bytes "command_name") command f);
                          paras = paras;
                          has_paras = h;
                          action = action;
                          has_action = l;
                          is_action = is;
                          value = value;
                        },
                      )
                ]
              ]
            ]
      ]

  -- What the handler takes for an order is what the request asks for.
  pub commanded-Commanded : (root : Node) → Commanded root (commanded root)
  commanded-Commanded root = elim (commanded-cases root) [
    | inl e ↦ rw e (not_asked (λ d n a. absurd (ground (arith, asked-commanded root d n a, e))))
    | inr (d, n, a) ↦ rw (asked-commanded root d n a) (asked d n a)
  ]

  pub Commanded-unique : (root : Node) (xs : List Order) → Commanded root xs → xs ≡ commanded root
  Commanded-unique root xs (asked d n a) = sym (asked-commanded root d n a)
  Commanded-unique root xs (not_asked none_asked) = elim (commanded-cases root) [
    | inl e ↦ sym e
    | inr (d, n, a) ↦ absurd (none_asked d n a)
  ]
