-- ===== src/Server/Broker/Roles.antt =====
-- A broker that knows who plays which role, passes messages on by role, and hears of its connections by events.
use smart_home_weather_monit.Base.{
  ℕ, ◌≡◌, Bool, true, false, Option, none, some, List, [], ◌∷◌, ◌++◌, if◌then◌else◌,
}
use smart_home_weather_monit.Text.{Bytes, bytes, contains}
use smart_home_weather_monit.Server.{Action, sent, closed, connected, b_connected, c_connected}
use smart_home_weather_monit.Server.Invariant.{Role, role_a, role_b, role_c}

abbrev pub Registry : Type 0
Registry = Role → Option ℕ

abbrev pub Same : Registry → Registry → Type 0
Same h h' = (k : Role) → h k ≡ h' k

abbrev pub same_role : Role → Role → Bool
same_role role_a role_a = true
same_role role_b role_b = true
same_role role_c role_c = true
same_role _ _ = false

abbrev pub assign : Registry → Role → Option ℕ → Registry
assign h k x j = if same_role j k then x else h j

-- A receiver and a text.
abbrev pub Message : Type 0
Message = ℕ × Bytes

abbrev pub send_to : Option ℕ → Bytes → List Message
send_to none text = []
send_to (some fd) text = (fd, text) ∷ []

-- What the player of a role says goes to these.
abbrev pub relayed : Registry → Role → Bytes → List Message
relayed h role_a text = send_to (h role_b) text ++ send_to (h role_c) text
relayed h role_b text = send_to (h role_a) text
relayed h role_c text = send_to (h role_b) text

abbrev pub told_if : Option ℕ → ℕ → Bytes → List Message
told_if none fd text = []
told_if (some x) fd text = (fd, text) ∷ []

-- What is said when fd takes a role: A is told of the others, whoever comes last.
abbrev pub announced : Registry → Role → ℕ → List Message
announced h role_a fd = told_if (h role_b) fd b_connected ++ told_if (h role_c) fd c_connected
announced h role_b fd = send_to (h role_a) b_connected
announced h role_c fd = send_to (h role_a) c_connected

-- The role that an identity names: the first of the three that it contains.
abbrev pub Names : Bytes → Role → Type 0
Names text role_a = contains text (bytes "CLIENT_A") ≡ true
Names text role_b =
    (contains text (bytes "CLIENT_A") ≡ false) × (contains text (bytes "CLIENT_B") ≡ true)
Names text role_c =
    (contains text (bytes "CLIENT_A") ≡ false)
    × (contains text (bytes "CLIENT_B") ≡ false)
    × (contains text (bytes "CLIENT_C") ≡ true)

-- What the broker hears of its connections.
pub data Event : Type 0 where
  nothing : Event  -- a connection that comes, goes, or is refused before it has said anything
  identified : ℕ → Bytes → Event
  waiting : ℕ → Event  -- one that is registered and not yet greeted
  said : ℕ → Bytes → Event
  gone : ℕ → Event

abbrev pub HasRole : Registry → ℕ → Type 0
HasRole h fd = (k : Role) × (h k ≡ some fd)

-- What the broker does on an event: what it sends, and the registry after it.
pub data Served (h : Registry) : Event → List Message → Registry → Type 0 where
  rests : (h' : Registry) → Same h' h → Served h nothing [] h'
  greets : (fd : ℕ) (h' : Registry) → Same h' h → Served h (waiting fd) ((fd, connected) ∷ []) h'
  joins :
      (k : Role) (fd : ℕ) (text : Bytes) (ms : List Message) (h' : Registry)
      → Names text k
      → (HasRole h fd → ⊥)
      → ms ≡ announced h k fd
      → Same h' (assign h k (some fd))
      → Served h (identified fd text) ms h'
  refuses :
      (fd : ℕ) (text : Bytes) (h' : Registry)
      → ((k : Role) → Names text k → ⊥)
      → Same h' h
      → Served h (identified fd text) [] h'
  relays :
      (k : Role) (fd : ℕ) (text : Bytes) (ms : List Message) (h' : Registry)
      → h k ≡ some fd
      → ms ≡ relayed h k text
      → Same h' h
      → Served h (said fd text) ms h'
  ignores :
      (fd : ℕ) (text : Bytes) (h' : Registry)
      → (HasRole h fd → ⊥)
      → Same h' h
      → Served h (said fd text) [] h'
  leaves :
      (k : Role) (fd : ℕ) (h' : Registry)
      → h k ≡ some fd
      → Same h' (assign h k none)
      → Served h (gone fd) [] h'
  forgets : (fd : ℕ) (h' : Registry) → (HasRole h fd → ⊥) → Same h' h → Served h (gone fd) [] h'

-- The messages among the actions, in order.
abbrev pub messages : List Action → List Message
messages [] = []
messages (sent fd text ∷ acts) = (fd, text) ∷ messages acts
messages (closed fd ∷ acts) = messages acts

-- A run of the broker on some events from an empty registry, with all that it has sent.
pub data Serves : List Event → List Message → Registry → Type 0 where
  opens : (h : Registry) → ((k : Role) → h k ≡ none) → Serves [] [] h
  goes_on :
      {h : Registry} (es : List Event) (e : Event) (sofar ms : List Message) (h' : Registry)
      → Serves es sofar h
      → Served h e ms h'
      → Serves (es ++ e ∷ []) (sofar ++ ms) h'
