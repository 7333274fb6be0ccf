-- ===== src/Gateway/Switching.antt =====
-- What a request of the cloud does to the devices.
use smart_home_weather_monit.Base.{
  Option, ◌≤◌, ◌<◌, ◌⊎◌, ap, sym, ◌∙◌, ◌==◌, ==_iff, ℕ, zero, suc, ◌+◌, ◌≡◌, refl, true, none, some,
  arith, inl, inr, Option-cases, Bool-cases, is_some, if◌then◌else◌,
}
use smart_home_weather_monit.Text.{Bytes, bytes}
use smart_home_weather_monit.Cjson.{Cjson}
use smart_home_weather_monit.Gateway.{Gateway}
use smart_home_weather_monit.Gateway.Requests.{
  Device, SwitchEnv, set_response, handle_properties_set, set_services, set_service_item,
  set_service, set_all,
}

module _ (c : Cjson) where
  open c use {
    Node, parse, get_object_item, is_array, is_string, is_number, array_size, array_item,
    value_string, value_int,
  }

  -- No service of the list has a name that is not a string.
  abbrev pub NamedServices : Node → Type 0
  NamedServices services =
      (i : ℕ) (service item : Node)
      → array_item services i ≡ some service
      → get_object_item service (bytes "service_id") ≡ some item
      → is_string item ≡ true

  -- A service with properties whose name is there, but is not a text: its `valuestring` is NULL.
  abbrev pub NullNamed : Node → Type 0
  NullNamed service =
      (item : Node) × (properties : Node) × (get_object_item service (bytes "service_id")
        ≡ some item)
      × (get_object_item service (bytes "properties") ≡ some properties)
      × (value_string item ≡ none)

  -- One of so many services from the i-th on is named by NULL.
  abbrev NullNamedFrom : Node → (count i : ℕ) → Type 0
  NullNamedFrom services count i =
      (k : ℕ) × (service : Node) × (i ≤ k)
      × (k < i + count)
      × (array_item services k ≡ some service)
      × NullNamed service

  -- What is undefined exactly in one case, and otherwise done.
  abbrev Unless : Type 0 → Option Gateway → Type 0
  Unless Crash r = (Crash × (r ≡ none)) ⊎ ((¬ Crash) × (next : Gateway) × (r ≡ some next))

  item-Unless :
      (env : Device → SwitchEnv) (g : Gateway) (service : Node)
      → Unless (NullNamed service) (set_service_item c env g service)
  unfolding set_service_item
  item-Unless env g service = elim (Option-cases (get_object_item service (bytes "service_id"))) [
    | inl e ↦ inr ((λ (item, properties, a, b, d). cc), g, ground arith)
    | inr (item, e) ↦ elim (Option-cases (get_object_item service (bytes "properties"))) [
      | inl p ↦ inr ((λ (item', properties, a, b, d). cc), g, ground arith)
      | inr (properties, p) ↦ elim (Option-cases (value_string item)) [
        | inl n ↦ inl ((item, properties, e, p, n), ground arith)
        | inr (name, n) ↦ inr (
          (λ (item', properties', a, b, d). ground arith),
          set_service c env g name properties,
          ground arith,
        )
      ]
    ]
  ]

  same_some : (x y : Node) → ◌≡◌ {A = Option Node} (some x) (some y) → x ≡ y
  same_some x y e = cc

  later :
      (services : Node) (count i : ℕ)
      → NullNamedFrom services count (i + 1)
      → NullNamedFrom services (suc count) i
  later services count i (k, service, lo, hi, e, n) = (k, service, omega arith, omega arith, e, n)

  -- Without a NULL name at the i-th place, one in the rest.
  not_here :
      (services : Node) (count i : ℕ)
      → ((service : Node) → array_item services i ≡ some service → ¬ NullNamed service)
      → NullNamedFrom services (suc count) i
      → NullNamedFrom services count (i + 1)
  not_here services count i h (k, service, lo, hi, e, n) = elim (Bool-cases (k == i)) [
    | inl same ↦
        let here : k ≡ i = (==_iff k i).0 same in
        absurd (h service (ap (array_item services) (sym here) ∙ e) n)
    | inr other ↦ (k, service, ground arith, omega arith, e, n)
  ]

  services-Unless :
      (env : ℕ → Device → SwitchEnv) (g : Gateway) (services : Node) (count i : ℕ)
      → Unless (NullNamedFrom services count i) (set_services c env g services count i)
  unfolding set_services
  services-Unless env g services zero i = inr ((λ (k, service, lo, hi, e, n). omega arith), g, refl)
  services-Unless env g services (suc count) i = elim (Option-cases (array_item services i)) [
    | inl e ↦
        let missing : (service : Node)
            → array_item services i ≡ some service
            → ¬ NullNamed service =
          λ service f n. absurd (ground (arith, e, f)) in
        rw (e, set_services)
          (elim (services-Unless env g services count (i + 1)) [
            | inl (bad, f) ↦ inl (later services count i bad, f)
            | inr (good, next, f) ↦
                inr ((λ bad. good (not_here services count i missing bad)), next, f)
          ])
    | inr (service, e) ↦ elim (item-Unless (env i) g service) [
      | inl (n, f) ↦ inl (
        (i, service, omega arith, omega arith, e, n),
        rw (e, set_services) (rw (f, set_services) refl),
      )
      | inr (named, h, f) ↦
          let here : (s : Node) → array_item services i ≡ some s → ¬ NullNamed s =
            λ s f' n. named (rw (same_some service s (sym e ∙ f')) n) in
          rw (e, set_services)
            (rw (f, set_services)
              (elim (services-Unless env h services count (i + 1)) [
                | inl (bad, k) ↦ inl (later services count i bad, k)
                | inr (good, next, k) ↦
                    inr ((λ bad. good (not_here services count i here bad)), next, k)
              ]))
    ]
  ]

  -- The text is JSON with a list of services, of which one that has properties is named by NULL.
  abbrev pub Crashes : Bytes → Type 0
  Crashes message =
      (root : Node) × (services : Node) × (k : ℕ) × (service : Node) × (parse message ≡ some root)
      × (get_object_item root (bytes "services") ≡ some services)
      × (is_array services ≡ true)
      × (k < array_size services)
      × (array_item services k ≡ some service)
      × NullNamed service

  no_root : (message : Bytes) → parse message ≡ none → ¬ Crashes message
  no_root message e (root, services, k, service, a, s, y, l, f, n) = cc

  crash_parsed :
      (message : Bytes) (root : Node)
      → parse message ≡ some root
      → Crashes message
      → (services : Node) × (get_object_item root (bytes "services") ≡ some services)
        × (is_array services ≡ true)
        × NullNamedFrom services (array_size services) 0
  crash_parsed message root e (root', services, k, service, a, s, y, l, f, n) =
      let same : root ≡ root' = same_some root root' (sym e ∙ a) in
      (services, rw same s, y, (k, service, omega arith, omega arith, f, n))

  crash_services :
      (message : Bytes) (root services : Node)
      → parse message ≡ some root
      → get_object_item root (bytes "services") ≡ some services
      → Crashes message
      → (is_array services ≡ true) × NullNamedFrom services (array_size services) 0
  crash_services message root services e s crash =
      let (services', s', y, bad) = crash_parsed message root e crash in
      let same : services ≡ services' = same_some services services' (sym s ∙ s') in
      (rw same y, rw same bad)

  -- A request to set properties is undefined, since the handler compares a NULL pointer, exactly if its
  -- text is JSON with a list of services of which one that has properties has a name that is not a text.
  -- Otherwise it is handled to its end, and is answered exactly if its text is JSON.
  pub handle_properties_set-undefined_iff :
      (env : ℕ → Device → SwitchEnv) (g : Gateway) (message request : Bytes)
      → (Crashes message × (handle_properties_set c env g message request ≡ none))
        ⊎ ((¬ Crashes message)
            × (next : Gateway) × (handle_properties_set c env g message request
                ≡ some (if is_some (parse message) then set_response next request else next)))
  unfolding handle_properties_set set_all
  handle_properties_set-undefined_iff env g message request = elim (Option-cases (parse message)) [
    | inl e ↦ inr ((λ crash. no_root message e crash), g, ground arith)
    | inr (root, e) ↦ elim (Option-cases (get_object_item root (bytes "services"))) [
      | inl s ↦ inr (
        λ crash. absurd (let (services, t, y, bad) = crash_parsed message root e crash in cc),
        g,
        ground arith,
      )
      | inr (services, s) ↦ elim (Bool-cases (is_array services)) [
        | inr n ↦ inr (
          λ crash. absurd (let (y, bad) = crash_services message root services e s crash in cc),
          g,
          ground arith,
        )
        | inl y ↦ elim (services-Unless env g services (array_size services) 0) [
          | inl ((k, service, lo, hi, f, n), d) ↦
              inl ((root, services, k, service, e, s, y, omega arith, f, n), ground arith)
          | inr (good, next, d) ↦
              inr (
                λ crash. good (crash_services message root services e s crash).1,
                next,
                ground arith,
              )
        ]
      ]
    ]
  ]
