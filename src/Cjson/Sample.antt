-- ===== src/Cjson/Sample.antt =====
-- A small reading of cJSON, as trees: it shows that the documented behaviour can hold, and runs the
-- models on concrete documents.
use smart_home_weather_monit.Base.{
  ℕ, zero, suc, ◌≡◌, refl, Bool, true, false, Option, none, some, [], if◌then◌else◌, arith,
}
use smart_home_weather_monit.Base.Int.{ℤ, pos}
use smart_home_weather_monit.Text.{Bytes, str_eq, bytes}
use smart_home_weather_monit.Cjson.Defs.{Cjson}

mutual
  pub data Json : Type 0 where
    text : Bytes → Json
    number : ℤ → (tenths : Bytes) → (whole : Bytes) → Json
    array : Items → Json
    object : Fields → Json

  pub data Items : Type 0 where
    nil : Items
    cons : Json → Items → Items

  pub data Fields : Type 0 where
    end : Fields
    field : Bytes → Json → Fields → Fields

abbrev find_field : Fields → Bytes → Option Json
find_field end k = none
find_field (field j v rest) k = if str_eq j k then some v else find_field rest k

abbrev item_at : Items → ℕ → Option Json
item_at nil i = none
item_at (cons v rest) zero = some v
item_at (cons v rest) (suc i) = item_at rest i

abbrev count_items : Items → ℕ
count_items nil = 0
count_items (cons v rest) = suc (count_items rest)

abbrev object_item : Json → Bytes → Option Json
object_item (object fs) k = find_field fs k
object_item _ k = none

abbrev is_text : Json → Bool
is_text (text s) = true
is_text _ = false

abbrev is_num : Json → Bool
is_num (number n t w) = true
is_num _ = false

abbrev is_arr : Json → Bool
is_arr (array xs) = true
is_arr _ = false

abbrev size_of : Json → ℕ
size_of (array xs) = count_items xs
size_of _ = 0

abbrev item_of : Json → ℕ → Option Json
item_of (array xs) i = item_at xs i
item_of _ i = none

abbrev text_value : Json → Option Bytes
text_value (text s) = some s
text_value _ = none

abbrev int_value : Json → ℤ
int_value (number n t w) = n
int_value _ = pos 0

abbrev tenths_of : Json → Bytes
tenths_of (number n t w) = t
tenths_of _ = []

abbrev whole_of : Json → Bytes
whole_of (number n t w) = w
whole_of _ = []

pub text_value-is_text : (v : Json) → is_text v ≡ true → (s : Bytes) × (text_value v ≡ some s)
text_value-is_text (text s) e = (s, refl)
text_value-is_text (number n t w) e = (bytes "", ground arith)
text_value-is_text (array xs) e = (bytes "", ground arith)
text_value-is_text (object fs) e = (bytes "", ground arith)

-- A library that reads one document.
abbrev pub reading : Bytes → Json → Cjson
reading doc value = record {
  Node = Json;
  parse = λ t. if str_eq t doc then some value else none;
  get_object_item = object_item;
  is_array = is_arr;
  is_string = is_text;
  is_number = is_num;
  array_size = size_of;
  array_item = item_of;
  value_string = text_value;
  value_int = int_value;
  print_int = whole_of;
  print_tenths = tenths_of;
  print_whole = whole_of;
  string_value = text_value-is_text;
}
