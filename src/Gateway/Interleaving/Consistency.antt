-- ===== src/Gateway/Interleaving/Consistency.antt =====
-- The reports of an interleaved run.
use smart_home_weather_monit.Base.{ℕ, ◌≡◌, none, some, List}
use smart_home_weather_monit.Text.{Bytes}
use smart_home_weather_monit.Cjson.{Cjson}
use smart_home_weather_monit.Gateway.{Gateway}
use smart_home_weather_monit.Gateway.Reports.{Printer, smoke_members}
use smart_home_weather_monit.Gateway.Orders.{devices}
use smart_home_weather_monit.Base.Int.{ℤ}
use smart_home_weather_monit.Base.{Option}
use smart_home_weather_monit.Gateway.Interleaving.{Happened, View, view_after, Consistent, Running}

module _ (c : Cjson) (print : Printer) where
  -- The payload of a report that has begun shows that alarm.
  abbrev Pending : ℤ → Option (Option Bytes) → Type 0
  Pending alarm none = Unit
  Pending alarm (some smoke) = (r1 : ℕ) × (r2 : ℕ) × (smoke ≡ print (smoke_members r1 r2 alarm))

  -- The gateway keeps what the cloud has ordered.
  abbrev Matches : View → Running → Type 0
  Matches v s = (devices s.gateway ≡ v.now) × Pending v.alarm_begun s.pending

  -- What a step shows, and that the gateway keeps what is ordered.
  abbrev Tells : View → List Happened → Running → Type 0
  Tells v hs t = Consistent print v hs × Matches (view_after v hs) t

  -- What is ordered, in a gateway whose reports have yet to begin.
  abbrev pub view_of : Gateway → View
  view_of g = record { now = devices g; alarm_begun = g.alarm_value }
