-- ===== src/Gateway/Pipe.antt =====
-- The weather FIFO between client C, which writes a line in two calls of `write`, and the two readers of the
-- gateway: `read_weather_from_fifo`, and `fifo_listener_thread`, which only prints what it reads.
pub mod Sublists
pub mod Tokens
pub mod Order
pub mod Loss
use smart_home_weather_monit.Base.{
  ℕ, ◌≤◌, ◌≡◌, ◌≢◌, Bool, true, false, some, List, [], ◌∷◌, ◌++◌, length, take, drop,
}
use smart_home_weather_monit.Text.{Bytes}
use smart_home_weather_monit.Text.Buffers.{IsText, IsLine}
use smart_home_weather_monit.Gateway.{Gateway}
use smart_home_weather_monit.Gateway.Fifo.{ReadEnv, read_weather_from_fifo}
use smart_home_weather_monit.Gateway.Listeners.{got, listener_loop}

-- The bytes in the FIFO, whether client C is between its two writes, the texts that it has written, and those
-- that the gateway has kept; the oldest come first.
pub record Pipe : Type 0 where
  pub gateway : Gateway
  pub bytes : Bytes
  pub midway : Bool
  pub written : List Bytes
  pub kept : List Bytes

-- A text that client C writes as a line.
pub record IsWritten (t : Bytes) : Type 0 where
  pub text : IsText t
  pub line : IsLine t
  pub not_empty : t ≢ []

-- A read of at most 1023 bytes gets what it has room for, and leaves the rest.
abbrev pub reads_all : Bytes → ReadEnv
reads_all content = record { found = true; opened = true; content = some (take 1023 content) }

abbrev pub after_report : Pipe → Pipe
after_report s =
    let next = (read_weather_from_fifo (reads_all s.bytes) s.gateway).0 in
    record s { gateway = next; bytes = drop 1023 s.bytes; kept = s.kept ++ next.last_weather ∷ [] }

-- One call of `write` or `read`. A read with more than 1023 bytes in the FIFO cuts what is there.
pub data Step (s : Pipe) : Pipe → Type 0 where
  writes_text :
      (line : Bytes)
      → s.midway ≡ false
      → IsWritten line
      → Step s
          (record s { bytes = s.bytes ++ line; midway = true; written = s.written ++ line ∷ [] })
  writes_newline :
      s.midway ≡ true → Step s (record s { bytes = s.bytes ++ b'\n' ∷ []; midway = false })
  reports : s.bytes ≢ [] → Step s (after_report s)
  finds_nothing :
      s.bytes ≡ []
      → Step s (record s { gateway = (read_weather_from_fifo (reads_all []) s.gateway).0 })
  listens :
      (next : Gateway)
      → s.bytes ≢ []
      → listener_loop s.gateway (got (take 1023 s.bytes) true ∷ []) ≡ some next
      → Step s (record s { gateway = next; bytes = drop 1023 s.bytes })

abbrev pub empty : Gateway → Pipe
empty g = record { gateway = g; bytes = []; midway = false; written = []; kept = [] }

-- What can be reached from a gateway that has kept no text yet.
pub data Reach : Pipe → Type 0 where
  start : (g : Gateway) → g.last_weather ≡ [] → Reach (empty g)
  later : {s t : Pipe} → Reach s → Step s t → Reach t

-- The step is no read that finds more than 1023 bytes.
abbrev pub IsWholeStep : {s t : Pipe} → Step s t → Type 0
IsWholeStep {s} (reports ne) = length s.bytes ≤ 1023
IsWholeStep {s} (listens next ne e) = length s.bytes ≤ 1023
IsWholeStep _ = Unit

-- No read of the run finds more than 1023 bytes.
abbrev pub IsUncut : {s : Pipe} → Reach s → Type 0
IsUncut (start g e) = Unit
IsUncut (later r step) = IsUncut r × IsWholeStep step
