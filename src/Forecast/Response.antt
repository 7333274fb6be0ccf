-- ===== src/Forecast/Response.antt =====
-- The reply of the weather service: the read loop that collects it, and the search for its JSON text.
use smart_home_weather_monit.Base.{
  ◌≡◌, refl, ap, sym, Bool, true, false, ◌&&◌, Bool-cases, Option-cases, inl, inr, Option, none,
  some, List, [], ◌∷◌, ◌++◌, arith, All, append_assoc, append-nil, ltb, length, drop, if◌then◌else◌,
}
use smart_home_weather_monit.Text.{Bytes, bytes, strstr, advance, skip_spaces}
use smart_home_weather_monit.Text.Search.{Occurs, First, strstr-First, strstr-none}

-- One `read` that returned n > 0 bytes, and whether the `realloc` after it succeeded. A list of them
-- ends with the `read` that returned 0 or -1.
pub record Chunk : Type 0 where
  pub content : Bytes
  pub reallocated : Bool

-- What the loop leaves in `response`.
pub data Reply : Type 0 where
  -- `realloc` failed; the flag tells whether there was a response to free
  no_memory : (had_response : Bool) → Reply
  no_response : Reply
  response : Bytes → Reply

unfoldable pub read_more : Bytes → List Chunk → Reply
read_more sofar [] = response sofar
read_more sofar (r ∷ rest) =
    if r.reallocated then read_more (sofar ++ r.content) rest else no_memory true

unfoldable pub read_response : List Chunk → Reply
unfolding read_more
read_response [] = no_response
read_response (r ∷ rest) = if r.reallocated then read_more r.content rest else no_memory false

abbrev pub blank_line : Bytes
blank_line = bytes "\r\n\r\n"

abbrev pub short_blank_line : Bytes
short_blank_line = bytes "\n\n"

-- `json_start += 4`, then the loop over white space; `none` is a pointer behind the text's NUL.
abbrev pub after_header : Bytes → Option Bytes
after_header p = elim (advance 4 p) [ none ↦ none | some body ↦ some (skip_spaces body) ]

-- `json_start` when `cJSON_Parse` is called.
unfoldable pub json_start : Bytes → Option Bytes
unfolding strstr advance skip_spaces
json_start reply = elim (strstr reply blank_line) [
  | some p ↦ after_header p
  | none ↦ elim (strstr reply short_blank_line) [
    | some p ↦ after_header p
    | none ↦ some (skip_spaces reply)
  ]
]

abbrev pub AllReallocated : List Chunk → Type 0
AllReallocated rs = All (λ r. r.reallocated ≡ true) rs

abbrev pub joined : List Chunk → Bytes
joined [] = []
joined (r ∷ rest) = r.content ++ joined rest

read_more-joined :
    (sofar : Bytes) (rs : List Chunk)
    → AllReallocated rs
    → read_more sofar rs ≡ response (sofar ++ joined rs)
unfolding read_more
read_more-joined sofar [] h = ground (arith, append-nil sofar)
read_more-joined sofar (r ∷ rest) h = ground (
  arith,
  h.0,
  read_more-joined (sofar ++ r.content) rest h.1,
  append_assoc sofar r.content (joined rest),
)

pub read_response-joined :
    (r : Chunk) (rest : List Chunk)
    → AllReallocated (r ∷ rest)
    → read_response (r ∷ rest) ≡ response (joined (r ∷ rest))
unfolding read_response
read_response-joined r rest h = ground (arith, h.0, read_more-joined r.content rest h.1)

abbrev pub all_reallocated : List Chunk → Bool
all_reallocated [] = true
all_reallocated (r ∷ rest) = r.reallocated && all_reallocated rest

read_more-eq :
    (sofar : Bytes) (rs : List Chunk)
    → read_more sofar rs
      ≡ (if all_reallocated rs then response (sofar ++ joined rs) else no_memory true)
unfolding read_more
read_more-eq sofar [] = ap response (sym (append-nil sofar))
read_more-eq sofar (r ∷ rest) = elim (Bool-cases r.reallocated) [
  | inl y ↦
      ground (
        arith,
        y,
        read_more-eq (sofar ++ r.content) rest,
        append_assoc sofar r.content (joined rest),
      )
  | inr n ↦ ground (arith, n)
]

-- What the reads leave: if every reallocation succeeds, all that was received, in order, however it was cut
-- into reads; if one fails, nothing, and a response to free unless it was the first.
pub read_response-eq :
    (r : Chunk) (rest : List Chunk)
    → read_response (r ∷ rest) ≡ (
        if all_reallocated (r ∷ rest)
        then response (joined (r ∷ rest))
        else no_memory r.reallocated)
unfolding read_response
read_response-eq r rest = elim (Bool-cases r.reallocated) [
  | inl y ↦ ground (arith, y, read_more-eq r.content rest)
  | inr n ↦ ground (arith, n)
]

after_header_short :
    (body : Bytes)
    → after_header (short_blank_line ++ body)
      ≡ (if ltb (length body) 2 then none else some (skip_spaces (drop 2 body)))
unfolding advance
after_header_short [] = refl
after_header_short (x ∷ []) = refl
after_header_short (x ∷ y ∷ body) = ground arith

-- Where the JSON text of a reply starts.
pub data Starts (reply : Bytes) (start : Option Bytes) : Type 0 where
  behind_blank_line :
      (header body : Bytes)
      → reply ≡ header ++ (blank_line ++ body)
      → First blank_line reply (length header)
      → start ≡ some (skip_spaces body)
      → Starts reply start
  behind_short_blank_line :
      (header body : Bytes)
      → ¬ Occurs blank_line reply
      → reply ≡ header ++ (short_blank_line ++ body)
      → First short_blank_line reply (length header)
      → start ≡ (if ltb (length body) 2 then none else some (skip_spaces (drop 2 body)))
      → Starts reply start
  at_once :
      ¬ Occurs blank_line reply
      → ¬ Occurs short_blank_line reply
      → start ≡ some (skip_spaces reply)
      → Starts reply start

-- The JSON text of any reply starts, white space skipped, behind its first empty line that is ended by CR
-- LF; or, without one, two bytes too far behind its first empty line that is ended by LF, so that the pointer
-- leaves the text if less than two bytes follow; or, without either, at the beginning of the reply.
pub json_start-Starts : (reply : Bytes) → Starts reply (json_start reply)
unfolding json_start
json_start-Starts reply = elim (Option-cases (strstr reply blank_line)) [
  | inr (p, e) ↦
      let (header, body, q, r, f) = strstr-First reply blank_line e in
      behind_blank_line header body q f (ground arith)
  | inl e ↦ elim (Option-cases (strstr reply short_blank_line)) [
    | inr (p, e') ↦
        let (header, body, q, r, f) = strstr-First reply short_blank_line e' in
        behind_short_blank_line header body (strstr-none reply blank_line e) q f
          (ground (arith, after_header_short body))
    | inl e' ↦
        at_once (strstr-none reply blank_line e) (strstr-none reply short_blank_line e')
          (ground arith)
  ]
]
