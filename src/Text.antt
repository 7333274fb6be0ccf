-- ===== src/Text.antt =====
-- C strings as the program uses them: byte buffers, the text up to the first NUL, and the functions of
-- string.h, ctype.h and stdio.h that the sources call. A pointer into a text is the rest from there.
pub mod Search
pub mod Buffers
pub mod Parts
use Prim.Native.Char.{code}
use Prim.Native.String.{String}
use smart_home_weather_monit.Base.{
  ℕ, zero, suc, ◌+◌, ◌-◌, ◌/◌, ◌%◌, Bool, true, false, ◌&&◌, ◌||◌, Option, none, some, List, [],
  ◌∷◌, ◌++◌, ltb, leb, ◌==◌, if◌then◌else◌, is_some, length, take, drop, replicate,
}

abbrev pub Bytes : Type 0
Bytes = List ℕ

-- UTF-8, as the compiler stores the literals of the sources (code points below 2 ^ 16).
abbrev utf8 : ℕ → Bytes
utf8 c =
    if ltb c 0x80
    then c ∷ []
    else if ltb c 0x800
    then (0xc0 + c / 64) ∷ (0x80 + c % 64) ∷ []
    else (0xe0 + c / 4096) ∷ (0x80 + c / 64 % 64) ∷ (0x80 + c % 64) ∷ []

-- A string literal.
abbrev pub bytes : String → Bytes
bytes String.[] = []
bytes (String.◌∷◌ c s) = utf8 (code c) ++ bytes s

-- `memset(buffer, 0, size)` and then `size` bytes at most received into it.
unfoldable pub received : ℕ → Bytes → Bytes
received zero msg = []
received (suc n) [] = 0 ∷ received n []
received (suc n) (c ∷ cs) = c ∷ received n cs

-- The text that starts at a buffer's first byte; `none` when no NUL ends it inside the buffer.
unfoldable pub text_of : Bytes → Option Bytes
text_of [] = none
text_of (c ∷ cs) =
    let rest = text_of cs in
    if c == 0 then some [] else elim rest [ none ↦ none | some t ↦ some (c ∷ t) ]

-- What `%s`, `strlen` and `strstr` see of bytes that a NUL follows.
unfoldable pub c_text : Bytes → Bytes
c_text [] = []
c_text (c ∷ cs) = if c == 0 then [] else c ∷ c_text cs

unfoldable pub starts_with : Bytes → Bytes → Bool
starts_with [] hay = true
starts_with (n ∷ ns) [] = false
starts_with (n ∷ ns) (h ∷ hs) = n == h && starts_with ns hs

-- `strstr(hay, needle)`: the first place where the needle stands.
unfoldable pub strstr : Bytes → Bytes → Option Bytes
unfolding starts_with
strstr [] needle = if starts_with needle [] then some [] else none
strstr (h ∷ hs) needle = if starts_with needle (h ∷ hs) then some (h ∷ hs) else strstr hs needle

unfoldable pub contains : Bytes → Bytes → Bool
unfolding strstr
contains hay needle = is_some (strstr hay needle)

-- `strcmp(a, b) == 0`
unfoldable pub str_eq : Bytes → Bytes → Bool
str_eq [] [] = true
str_eq [] (b ∷ bs) = false
str_eq (a ∷ as') [] = false
str_eq (a ∷ as') (b ∷ bs) = a == b && str_eq as' bs

-- `strncpy(buffer, text, n)`: at most `n` bytes of the text, zeros up to `n`; the rest stays.
unfoldable pub strncpy : ℕ → Bytes → Bytes → Bytes
unfolding received
strncpy n buffer text = received n text ++ drop n buffer

-- `strcpy(buffer, text)`, which writes the NUL too; `none` is a write past the buffer's end.
unfoldable pub strcpy : Bytes → Bytes → Option Bytes
strcpy buffer text =
    if ltb (length text) (length buffer)
    then some (text ++ 0 ∷ drop (length text + 1) buffer)
    else none

-- `snprintf(buffer, n, …)` keeps `n - 1` bytes of the formatted text.
abbrev pub snprintf : ℕ → Bytes → Bytes
snprintf n text = take (n - 1) text

-- `isspace` in the C locale.
abbrev pub is_space : ℕ → Bool
is_space c = c == b' ' || leb 9 c && leb c 13

unfoldable pub skip_spaces : Bytes → Bytes
skip_spaces [] = []
skip_spaces (c ∷ cs) = if is_space c then skip_spaces cs else c ∷ cs

-- `p += n` on a pointer into a text; `none` is behind the NUL that ends it.
unfoldable pub advance : ℕ → Bytes → Option Bytes
advance zero t = some t
advance (suc n) [] = none
advance (suc n) (c ∷ cs) = advance n cs
