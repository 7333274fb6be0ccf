-- ===== src/ClientC/Commands.antt =====
-- `parse_command_type`: which command a message names.
use smart_home_weather_monit.Base.{
  ◌≡◌, ◌≢◌, refl, [], ◌⊎◌, inl, inr, true, false, Bool, ◌||◌, Option, none, some, List, ◌∷◌, All,
  arith, if◌then◌else◌, Bool-cases,
}
use smart_home_weather_monit.Text.{Bytes, bytes, contains}
use smart_home_weather_monit.Text.Search.{Occurs, contains_iff}
use smart_home_weather_monit.ClientC.{Command, led_on, led_off, buzzer_on, buzzer_off, unknown}

-- `strstr(message, upper) || strstr(message, lower)`
unfoldable pub names : Bytes → Bytes → Bytes → Bool
names message upper lower = contains message upper || contains message lower

unfoldable pub parse_command_text : Bytes → Command
parse_command_text message =
    if names message (bytes "LED_ON") (bytes "led_on")
    then led_on
    else if names message (bytes "LED_OFF") (bytes "led_off")
    then led_off
    else if names message (bytes "BUZZER_ON") (bytes "buzzer_on")
    then buzzer_on
    else if names message (bytes "BUZZER_OFF") (bytes "buzzer_off")
    then buzzer_off
    else unknown

-- `none` is NULL.
unfoldable pub parse_command_type : Option Bytes → Command
unfolding parse_command_text
parse_command_type none = unknown
parse_command_type (some message) = parse_command_text message

-- The spelling of a command, in capitals and in small letters.
abbrev pub upper_name : Command → Bytes
upper_name led_on = bytes "LED_ON"
upper_name led_off = bytes "LED_OFF"
upper_name buzzer_on = bytes "BUZZER_ON"
upper_name buzzer_off = bytes "BUZZER_OFF"
upper_name unknown = []

abbrev pub lower_name : Command → Bytes
lower_name led_on = bytes "led_on"
lower_name led_off = bytes "led_off"
lower_name buzzer_on = bytes "buzzer_on"
lower_name buzzer_off = bytes "buzzer_off"
lower_name unknown = []

-- The command's name stands somewhere in the message.
abbrev pub Names : Bytes → Command → Type 0
Names message k = Occurs (upper_name k) message ⊎ Occurs (lower_name k) message

names_sound : (m u l : Bytes) → names m u l ≡ true → Occurs u m ⊎ Occurs l m
unfolding names
names_sound m u l e = elim (Bool-cases (contains m u)) [
  | inl here ↦ inl ((contains_iff m u).0 here)
  | inr not_here ↦ inr ((contains_iff m l).0 (ground arith))
]

names_complete : (m u l : Bytes) → Occurs u m ⊎ Occurs l m → names m u l ≡ true
unfolding names
names_complete m u l (inl o) = let e = (contains_iff m u).1 o in ground arith
names_complete m u l (inr o) = let e = (contains_iff m l).1 o in ground arith

-- The test for a command.
abbrev tested : Bytes → Command → Bool
tested m k = names m (upper_name k) (lower_name k)

parse_tested :
    (m : Bytes) (k : Command) → k ≢ unknown → parse_command_text m ≡ k → tested m k ≡ true
unfolding parse_command_text
parse_tested m led_on known e = ground arith
parse_tested m k known e = ground arith

-- A command that is found is named in the message.
pub parse_command_type-Names :
    (m : Bytes) (k : Command) → k ≢ unknown → parse_command_type (some m) ≡ k → Names m k
unfolding parse_command_type
parse_command_type-Names m k known e =
    names_sound m (upper_name k) (lower_name k) (parse_tested m k known e)

-- The commands in the order in which they are tested.
abbrev pub tested_before : Command → List Command
tested_before led_on = []
tested_before led_off = led_on ∷ []
tested_before buzzer_on = led_on ∷ led_off ∷ []
tested_before buzzer_off = led_on ∷ led_off ∷ buzzer_on ∷ []
tested_before unknown = led_on ∷ led_off ∷ buzzer_on ∷ buzzer_off ∷ []

-- The first command, in this order, that the message names; or none of them.
pub record IsFirstNamed (m : Bytes) (k : Command) : Type 0 where
  pub named : (k ≡ unknown) ⊎ Names m k
  pub others : All (λ j. ¬ Names m j) (tested_before k)

untested : (m : Bytes) (k : Command) → tested m k ≡ false → ¬ Names m k
untested m k e n = let f = names_complete m (upper_name k) (lower_name k) n in cc

first_tested :
    (m : Bytes) (k : Command)
    → tested m k ≡ true
    → All (λ j. ¬ Names m j) (tested_before k)
    → IsFirstNamed m k
first_tested m k e h = record {
  named = inr (names_sound m (upper_name k) (lower_name k) e);
  others = h;
}

last_tested :
    (m : Bytes)
    → All (λ j. ¬ Names m j) (tested_before buzzer_off)
    → IsFirstNamed m (if tested m buzzer_off then buzzer_off else unknown)
last_tested m h = elim (Bool-cases (tested m buzzer_off)) [
  | inl y ↦ rw y (first_tested m buzzer_off y h)
  | inr e ↦ rw e (record {
    named = inl refl;
    others = (h.0, (h.1.0, (h.1.1.0, (untested m buzzer_off e, tt))));
  })
]

-- Every message is read as the first command that it names, in capitals or in small letters, of LED_ON,
-- LED_OFF, BUZZER_ON and BUZZER_OFF in this order, wherever they stand in it; and as no command if it names
-- none of them.
pub parse_command_type-IsFirstNamed : (m : Bytes) → IsFirstNamed m (parse_command_type (some m))
unfolding parse_command_type parse_command_text
parse_command_type-IsFirstNamed m = elim (Bool-cases (tested m led_on)) [
  | inl y ↦ rw (y, parse_command_type) (first_tested m led_on y tt)
  | inr e1 ↦ elim (Bool-cases (tested m led_off)) [
    | inl y ↦
        rw (e1, parse_command_type)
          (rw (y, parse_command_type) (first_tested m led_off y (untested m led_on e1, tt)))
    | inr e2 ↦ elim (Bool-cases (tested m buzzer_on)) [
      | inl y ↦
          rw (e1, parse_command_type)
            (rw (e2, parse_command_type)
              (rw (y, parse_command_type)
                (first_tested m buzzer_on y (untested m led_on e1, (untested m led_off e2, tt)))))
      | inr e3 ↦
          rw (e1, parse_command_type)
            (rw (e2, parse_command_type)
              (rw (e3, parse_command_type)
                (last_tested m
                  (untested m led_on e1, (untested m led_off e2, (untested m buzzer_on e3, tt))))))
    ]
  ]
]
