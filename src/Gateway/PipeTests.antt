-- ===== src/Gateway/PipeTests.antt =====
-- Runs of the weather FIFO.
use smart_home_weather_monit.Base.{◌≡◌, refl, false, none, some, [], ◌∷◌, ◌++◌, arith}
use smart_home_weather_monit.Text.{Bytes, bytes, str_eq}
use smart_home_weather_monit.Cjson.{Cjson}
use smart_home_weather_monit.Cjson.Sample.{object, end, reading}
use smart_home_weather_monit.Gateway.{initial_gateway, reported, act}
use smart_home_weather_monit.Gateway.Reports.{Printer, ReportEnv, properties_report, services}
use smart_home_weather_monit.Gateway.Buffers.{members_of}
use smart_home_weather_monit.Gateway.Pipe.{
  Pipe, IsWritten, writes_text, writes_newline, reports, Reach, start, later, reads_all,
  after_report, empty,
}
use smart_home_weather_monit.Gateway.Pipe.Sublists.{Sub, visible, newest}
use smart_home_weather_monit.Gateway.Pipe.Order.{Reach-Sub}
use smart_home_weather_monit.Gateway.Pipe.Loss.{lost_to_listener, torn_line}

abbrev json : Bytes
json = bytes "{}"

json-IsWritten : IsWritten json
json-IsWritten = record { text = omega arith; line = omega arith; not_empty = λ e. cc }

abbrev idle : Pipe
idle = empty initial_gateway

abbrev filled : Pipe
filled = record idle { bytes = json ++ b'\n' ∷ []; written = json ∷ [] }

filled-Reach : Reach filled
filled-Reach =
    later (later (start initial_gateway refl) (writes_text json refl json-IsWritten))
      (writes_newline refl)

Reach-Sub_example :
    Sub (visible (after_report filled).kept) (json ∷ [])
    × ((after_report filled).gateway.last_weather ≡ newest (after_report filled).kept)
unfolding filled-Reach
Reach-Sub_example = Reach-Sub (later filled-Reach (reports (λ e. cc))) (((tt, tt), tt), omega arith)

lost_to_listener_example :
    (last : Pipe) × Reach last
    × (last.written ≡ idle.written ++ json ∷ [])
    × (last.bytes ≡ [])
    × (last.midway ≡ false)
    × (last.kept ≡ idle.kept)
    × (last.gateway ≡ idle.gateway)
lost_to_listener_example =
    lost_to_listener idle (start initial_gateway refl) json refl refl json-IsWritten (omega arith)

-- A cJSON that reads "{}" only.
abbrev library : Cjson
library = reading json (object end)

library-silent : library.parse [] ≡ none
unfolding str_eq
library-silent = refl

abbrev prints_nothing : Printer
prints_nothing members = none

abbrev newline_env : ReportEnv
newline_env = record { fifo = reads_all (b'\n' ∷ []); first_random = 1; second_random = 2 }

torn_line_example :
    (read : Pipe) × Reach read
    × (read.written ≡ idle.written ++ json ∷ [])
    × (read.bytes ≡ b'\n' ∷ [])
    × (read.gateway.last_weather ≡ json)
    × (properties_report library prints_nothing newline_env read.gateway
        ≡ some (
            act
              (record read.gateway { last_weather = [] })
              (reported (
                  services prints_nothing newline_env read.gateway
                    (members_of (bytes "Unknown") (bytes "Unknown") (bytes "25.5") (bytes "60")))
                ∷ [])))
torn_line_example =
    torn_line idle (start initial_gateway refl) json refl refl json-IsWritten (omega arith) library
      prints_nothing newline_env library-silent refl
