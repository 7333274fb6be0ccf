-- ===== src/Cjson/Defs.antt =====
-- The calls of cJSON that the programs make, with what cJSON.h documents of them.
use smart_home_weather_monit.Base.{ℕ, ◌≡◌, Bool, true, Option, some}
use smart_home_weather_monit.Base.Int.{ℤ}
use smart_home_weather_monit.Text.{Bytes}

pub record Cjson : Type 1 where
  pub Node : Type 0
  pub parse : Bytes → Option Node
  pub get_object_item : Node → Bytes → Option Node
  pub is_array : Node → Bool
  pub is_string : Node → Bool
  pub is_number : Node → Bool
  pub array_size : Node → ℕ
  pub array_item : Node → ℕ → Option Node
  -- the member `valuestring`
  pub value_string : Node → Option Bytes
  -- the member `valueint`
  pub value_int : Node → ℤ
  -- the member `valuedouble`, as printf prints `(int)valuedouble` by %d and `valuedouble` by %.1f and
  -- %.0f
  pub print_int : Node → Bytes
  pub print_tenths : Node → Bytes
  pub print_whole : Node → Bytes
  -- `valuestring` is "the item's string, if type==cJSON_String"
  pub string_value : (n : Node) → is_string n ≡ true → (s : Bytes) × (value_string n ≡ some s)

-- A member of an object whose value is a string.
abbrev pub HasString : (c : Cjson) → c.Node → Bytes → Bytes → Type 0
HasString c root key t =
    (n : c.Node) × (c.get_object_item root key ≡ some n)
    × (c.is_string n ≡ true)
    × (c.value_string n ≡ some t)
