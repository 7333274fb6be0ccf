-- ===== src/Gateway/Fifo.antt =====
-- The FIFOs of the gateway: reading the weather, writing commands, and `deleteSubStr`.
use smart_home_weather_monit.Base.{
  ℕ, zero, suc, ◌-◌, ◌≡◌, ◌≢◌, refl, Bool, true, false, Option, none, some, List, [], ◌∷◌, ◌++◌,
  arith, ◌==◌, if◌then◌else◌, length, take, take_all, drop, All,
}
use smart_home_weather_monit.Text.{Bytes, c_text, strstr}
use smart_home_weather_monit.Gateway.{
  Gateway, Action, directory_made, command_fifo_made, command_written, newline_written, act,
}

-- `deleteSubStr` on a text and a substring that are not NULL.
unfoldable pub delete_substr : Bytes → Bytes → Bytes
unfolding strstr
delete_substr text sub = elim (strstr text sub) [
  | none ↦ text
  | some p ↦ take (length text - length p) text ++ drop (length sub) p
]

-- The text up to the first newline.
unfoldable pub until_newline : Bytes → Bytes
until_newline [] = []
until_newline (c ∷ cs) = if c == b'\n' then [] else c ∷ until_newline cs

-- What the system answers while the weather FIFO is read: `read` returns bytes, none of them at the end
-- of the stream, or -1 (`none`).
pub record ReadEnv : Type 0 where
  pub found : Bool
  pub opened : Bool
  pub content : Option Bytes

abbrev last_or_null : Bytes → Option Bytes
last_or_null [] = none
last_or_null (c ∷ cs) = some (c ∷ cs)

-- `read_weather_from_fifo`: the text kept for the next time, and the result; `none` is NULL.
unfoldable pub read_weather : ReadEnv → Bytes → Bytes × Option Bytes
unfolding until_newline c_text
read_weather env last =
    if env.found
    then (if env.opened
        then elim env.content [
          | none ↦ (last, none)
          | some [] ↦ (last, last_or_null last)
          | some (b ∷ bs) ↦ (
            until_newline (c_text (take 1023 (b ∷ bs))),
            some (until_newline (c_text (take 1023 (b ∷ bs)))),
          )
        ]
        else (last, last_or_null last))
    else (last, last_or_null last)

unfoldable pub read_weather_from_fifo : ReadEnv → Gateway → Gateway × Option Bytes
unfolding read_weather
read_weather_from_fifo env g = (
  record g { last_weather = (read_weather env g.last_weather).0 },
  (read_weather env g.last_weather).1,
)

-- What the system answers while a command is written; `written` is what the first `write` returns.
pub record WriteEnv : Type 0 where
  pub has_directory : Bool
  pub found : Bool
  pub opened : Bool
  pub written : Option ℕ

abbrev when : Bool → Action → List Action
when true a = a ∷ []
when false a = []

-- The bytes of the command that go out, and the newline after them if there are any.
abbrev written_actions : Bytes → Option ℕ → List Action
written_actions command none = []
written_actions command (some zero) = []
written_actions command (some (suc n)) =
    command_written (take (suc n) command) ∷ newline_written ∷ []

-- `write_command_to_fifo` of a command that is not NULL.
unfoldable pub write_command_to_fifo : WriteEnv → Gateway → Bytes → Gateway × Bool
write_command_to_fifo env g command =
    let made =
      when (if env.has_directory then false else true) directory_made
      ++ when (if env.found then false else true) command_fifo_made in
    if env.opened
    then (
      act g (made ++ written_actions command env.written),
      elim env.written [ none ↦ false | some n ↦ true ],
    )
    else (act g made, false)

pub until_newline-append :
    (t rest : Bytes) → All (λ c. c ≢ b'\n') t → until_newline (t ++ b'\n' ∷ rest) ≡ t
unfolding until_newline
until_newline-append [] rest h = refl
until_newline-append (c ∷ t) rest h = ground (arith, h.0, until_newline-append t rest h.1)

-- What some actions have put into the command FIFO.
abbrev pub command_bytes : List Action → Bytes
command_bytes [] = []
command_bytes (command_written t ∷ as') = t ++ command_bytes as'
command_bytes (newline_written ∷ as') = b'\n' ∷ command_bytes as'
command_bytes (_ ∷ as') = command_bytes as'

-- Making the directory and the FIFO writes nothing.
command_bytes_made :
    (a b : Bool) (rest : List Action)
    → command_bytes ((when a directory_made ++ when b command_fifo_made) ++ rest)
      ≡ command_bytes rest
command_bytes_made true true rest = refl
command_bytes_made true false rest = refl
command_bytes_made false true rest = refl
command_bytes_made false false rest = refl

-- A command that is written whole is in the FIFO as a line.
pub write_command_to_fifo-whole :
    (env : WriteEnv) (g : Gateway) (command : Bytes) (n : ℕ)
    → env.opened ≡ true
    → env.written ≡ some (suc n)
    → length command ≡ suc n
    → (new : List Action) × ((write_command_to_fifo env g command).0.actions ≡ g.actions ++ new)
      × (command_bytes new ≡ command ++ b'\n' ∷ [])
unfolding write_command_to_fifo
write_command_to_fifo-whole env g command n o w l =
    let line = command_written command ∷ newline_written ∷ [] in
    let t = take_all (suc n) command (omega (arith, l)) in
    (
      (when (if env.has_directory then false else true) directory_made
            ++ when (if env.found then false else true) command_fifo_made)
          ++ line,
      ground (arith, o, w, t),
      command_bytes_made (if env.has_directory then false else true)
          (if env.found then false else true) line,
    )
