-- ===== src/Gateway/Schema.antt =====
-- What the cloud can rely on in the reports of `Test_propertiesReport`: their services, the members of each
-- and the types of these.
use smart_home_weather_monit.Base.{ℕ, ◌<◌, ◌≤◌, ◌≡◌, refl, Option, List, [], ◌∷◌, arith, length}
use smart_home_weather_monit.Base.Int.{ℤ, pos}
use smart_home_weather_monit.Text.{Bytes, bytes}
use smart_home_weather_monit.Gateway.{Gateway, Action, reported}
use smart_home_weather_monit.Gateway.Reports.{
  Value, Printer, ReportEnv, smoke_members, control_members, services,
}
use smart_home_weather_monit.Gateway.Buffers.{Members}

-- The type of a value, with its range.
pub data Kind : Type 0 where
  whole : Kind  -- any number
  below : ℕ → Kind  -- a number from 0 on
  tenths_within : ℕ → ℕ → Kind  -- a number of tenths, bounds included
  at_most : ℕ → Kind  -- a text of at most so many bytes

abbrev pub IsOf : Kind → Value → Type 0
IsOf whole (Value.number n) = Unit
IsOf (below n) (Value.number (pos k)) = k < n
IsOf (tenths_within lo hi) (Value.tenths k) = (lo ≤ k) × (k ≤ hi)
IsOf (at_most n) (Value.text t) = length t ≤ n
IsOf _ _ = ⊥

-- An object has the members that a schema names, in order, and these are of their types.
abbrev pub Conforms : List (Bytes × Kind) → List (Bytes × Value) → Type 0
Conforms [] [] = Unit
Conforms ((key, kind) ∷ ks) ((name, value) ∷ vs) = (name ≡ key) × IsOf kind value × Conforms ks vs
Conforms _ _ = ⊥

abbrev pub smoke_schema : List (Bytes × Kind)
smoke_schema =
    (bytes "alarm", whole)
    ∷ (bytes "smokeConcentration", tenths_within 100 999)
    ∷ (bytes "temperature", at_most 4)
    ∷ (bytes "humidity", below 100)
    ∷ []

abbrev pub weather_schema : List (Bytes × Kind)
weather_schema =
    (bytes "city", at_most 63)
    ∷ (bytes "weather", at_most 63)
    ∷ (bytes "temperature", at_most 31)
    ∷ (bytes "humidity", at_most 31)
    ∷ (bytes "wind_direction", at_most 5)
    ∷ []

abbrev pub control_schema : List (Bytes × Kind)
control_schema = (bytes "led_status", whole) ∷ (bytes "buzzer_status", whole) ∷ []

-- The three services of a report, each printed from an object that conforms to its schema.
abbrev pub IsReport : Printer → List (Bytes × Option Bytes) → Type 0
IsReport print report =
    (smoke : List (Bytes × Value)) × (weather : List (Bytes × Value)) × (control : List
      (Bytes × Value))
    × Conforms smoke_schema smoke
    × Conforms weather_schema weather
    × Conforms control_schema control
    × (report
        ≡ (bytes "smokeDetector", print smoke)
          ∷ (bytes "Weather", print weather)
          ∷ (bytes "Control", print control)
          ∷ [])

-- Whatever a report to the cloud is among the actions, it is one of these.
abbrev pub IsTyped : Printer → Action → Type 0
IsTyped print (reported report) = IsReport print report
IsTyped print _ = Unit

smoke_members-Conforms : (r1 r2 : ℕ) (alarm : ℤ) → Conforms smoke_schema (smoke_members r1 r2 alarm)
unfolding smoke_members
smoke_members-Conforms r1 r2 alarm =
    (refl, tt, (refl, (omega arith, omega arith), (refl, omega arith, (refl, omega arith, tt))))

control_members-Conforms : (led buzzer : ℤ) → Conforms control_schema (control_members led buzzer)
unfolding control_members
control_members-Conforms led buzzer = (refl, tt, (refl, tt, tt))

Members-Conforms :
    (members : List (Bytes × Value)) → Members members → Conforms weather_schema members
Members-Conforms members (a, b, t, u, e, l1, l2, l3, l4) =
    rw e (refl, l1, (refl, l2, (refl, l3, (refl, l4, (refl, omega arith, tt)))))

pub services-IsReport :
    (print : Printer) (env : ReportEnv) (g : Gateway) (members : List (Bytes × Value))
    → Members members
    → IsReport print (services print env g members)
services-IsReport print env g members v = (
  smoke_members env.first_random env.second_random g.alarm_value,
  members,
  control_members g.led_status g.buzzer_status,
  smoke_members-Conforms env.first_random env.second_random g.alarm_value,
  Members-Conforms members v,
  control_members-Conforms g.led_status g.buzzer_status,
  refl,
)
