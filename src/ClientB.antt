-- ===== src/ClientB.antt =====
-- 1_服务器_客户端/1_客户端/client_B.c: the client that sends city names and prints the reports.
pub mod Dialogue
mod Tests
use smart_home_weather_monit.Base.{
  ℕ, true, false, Option, none, some, List, [], ◌∷◌, ◌==◌, ◌||◌, if◌then◌else◌,
}
use smart_home_weather_monit.Text.{Bytes, bytes, str_eq, received, text_of}

abbrev pub buffer_size : ℕ
buffer_size = 1024

-- `buffer[strcspn(buffer, "\n")] = 0`, then the text of the buffer: the bytes before the first newline or NUL.
unfoldable pub first_line : Bytes → Bytes
first_line [] = []
first_line (c ∷ cs) = if c == b'\n' || c == 0 then [] else c ∷ first_line cs

-- One round: the line that `fgets` reads (`none` at the end of the input), and what `recv` returns
-- (`none` is a timeout or an error).
pub record Round : Type 0 where
  pub line : Option Bytes
  pub reply : Option Bytes

pub data Event : Type 0 where
  sent : Bytes → Event
  shown : Bytes → Event

-- What is printed after a `recv`; `none` is a buffer without a NUL.
unfoldable pub reply_text : Option Bytes → Option Bytes
unfolding received text_of
reply_text none = some (bytes "等待响应超时")
reply_text (some msg) = text_of (received buffer_size msg)

-- The loop of `main`; where the rounds end the client waits for input.
unfoldable pub talk : List Round → Option (List Event)
unfolding first_line reply_text
talk [] = some []
talk (r ∷ rs) = elim r.line [
  | none ↦ some []
  | some line ↦ elim (str_eq (first_line line) (bytes "quit")) [
    | true ↦ some []
    | false ↦ elim (reply_text r.reply) [
      | none ↦ none
      | some text ↦ elim (talk rs) [
        | none ↦ none
        | some es ↦ some (sent (first_line line) ∷ shown text ∷ es)
      ]
    ]
  ]
]

-- `main`: the identity, the confirmation, the first report, then the loop.
unfoldable pub client_main : Bytes → Bytes → List Round → Option (List Event)
unfolding talk received text_of
client_main confirmation report rounds = elim (text_of (received buffer_size confirmation)) [
  | none ↦ none
  | some confirmed ↦ elim (text_of (received buffer_size report)) [
    | none ↦ none
    | some first ↦ elim (talk rounds) [
      | none ↦ none
      | some es ↦ some (sent (bytes "CLIENT_B") ∷ shown confirmed ∷ shown first ∷ es)
    ]
  ]
]
