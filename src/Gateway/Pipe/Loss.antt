-- ===== src/Gateway/Pipe/Loss.antt =====
-- How a text is lost in the weather FIFO: runs from any state in which the FIFO is empty.
use smart_home_weather_monit.Base.{
  ◌≤◌, ◌≡◌, ◌≢◌, refl, ap, ◌∙◌, true, false, none, some, [], ◌∷◌, ◌++◌, arith, length,
  length-append, take, take_all, drop, drop_all,
}
use smart_home_weather_monit.Text.{Bytes, bytes, c_text, text_of}
use smart_home_weather_monit.Cjson.{Cjson}
use smart_home_weather_monit.ClientC.WeatherJson.{parse_weather_json}
use smart_home_weather_monit.Gateway.{Gateway, reported, act}
use smart_home_weather_monit.Gateway.Fifo.{read_weather_from_fifo, read_weather, until_newline}
use smart_home_weather_monit.Gateway.Listeners.{got, listener_loop, command_text}
use smart_home_weather_monit.Gateway.Reports.{
  Printer, ReportEnv, default_weather, weather_members, current_weather, properties_report,
  services, properties_report_lem,
}
use smart_home_weather_monit.Gateway.Buffers.{members_of}
use smart_home_weather_monit.Gateway.Pipe.{
  Pipe, IsWritten, writes_text, writes_newline, reports, listens, Reach, later, reads_all,
  after_report,
}
use smart_home_weather_monit.Gateway.Pipe.Order.{read_all}
use smart_home_weather_monit.Gateway.Pipe.Tokens.{until_newline-IsLine}
use smart_home_weather_monit.Text.Buffers.{c_text_lem}

listener_loop-line :
    (g : Gateway) (t : Bytes)
    → IsWritten t
    → length (t ++ b'\n' ∷ []) ≤ 1023
    → listener_loop g (got (take 1023 (t ++ b'\n' ∷ [])) true ∷ []) ≡ some g
unfolding listener_loop command_text c_text
listener_loop-line g [] w l = absurd (w.not_empty refl)
listener_loop-line g (c ∷ t) w l =
    rw (take_all 1023 (c ∷ t ++ b'\n' ∷ []) l) (ground (arith, w.text.0))

not_empty-append : (t rest : Bytes) → t ≢ [] → t ++ rest ≢ []
not_empty-append [] rest h = absurd (h refl)
not_empty-append (c ∷ t) rest h = λ e. cc

-- Client C has written a text into an empty FIFO, without its newline yet.
abbrev half : Pipe → Bytes → Pipe
half s t = record s { bytes = s.bytes ++ t; midway = true; written = s.written ++ t ∷ [] }

abbrev whole : Pipe → Bytes → Pipe
whole s t = record (half s t) { bytes = (s.bytes ++ t) ++ b'\n' ∷ []; midway = false }

default_members :
    weather_members default_weather
    ≡ some (members_of (bytes "Unknown") (bytes "Unknown") (bytes "25.5") (bytes "60"))
unfolding weather_members text_of
default_members = refl

current_weather-empty :
    (c : Cjson) → c.parse [] ≡ none → current_weather c (some []) ≡ some default_weather
unfolding current_weather parse_weather_json
current_weather-empty c e = ground (arith, e)

read_newline : (last : Bytes) → read_weather (reads_all (b'\n' ∷ [])) last ≡ ([], some [])
unfolding read_weather until_newline c_text
read_newline last = refl

module _ (s : Pipe) (r : Reach s) (t : Bytes) (idle : s.midway ≡ false) (nothing : s.bytes ≡ [])
    (w : IsWritten t) (fits : length t ≤ 1000) where
  half-Reach : Reach (half s t)
  half-Reach = later r (writes_text t idle w)

  -- Whenever the FIFO is empty and client C is not writing, there is a run in which client C writes a line
  -- of at most 1000 bytes and the listener takes it: the FIFO is empty again, and the gateway is as it was and
  -- keeps no new text.
  pub lost_to_listener :
      (last : Pipe) × Reach last
      × (last.written ≡ s.written ++ t ∷ [])
      × (last.bytes ≡ [])
      × (last.midway ≡ false)
      × (last.kept ≡ s.kept)
      × (last.gateway ≡ s.gateway)
  lost_to_listener =
      let e : (whole s t).bytes ≡ t ++ b'\n' ∷ [] = ap (λ b. (b ++ t) ++ b'\n' ∷ []) nothing in
      let l : length (t ++ b'\n' ∷ []) ≤ 1023 = omega (arith, length-append t (b'\n' ∷ [])) in
      (
        record (whole s t) { bytes = drop 1023 (whole s t).bytes },
        later (later half-Reach (writes_newline refl)) (
            listens s.gateway (rw e (not_empty-append t (b'\n' ∷ []) w.not_empty))
              (rw e (listener_loop-line s.gateway t w l))),
        refl,
        drop_all 1023 (whole s t).bytes (rw e l),
        refl,
        refl,
        refl,
      )

  -- The gateway has read the text before its newline came.
  abbrev pub torn : Pipe
  torn = record (after_report (half s t)) {
    bytes = drop 1023 (half s t).bytes ++ b'\n' ∷ [];
    midway = false;
  }

  torn-bytes : torn.bytes ≡ b'\n' ∷ []
  torn-bytes =
      let e : (half s t).bytes ≡ t = ap (λ b. b ++ t) nothing in
      ap (λ b. b ++ b'\n' ∷ [])
        (drop_all 1023 (half s t).bytes (rw e (let l = fits in omega arith)))

  torn-Reach : Reach torn
  torn-Reach =
      let e : (half s t).bytes ≡ t = ap (λ b. b ++ t) nothing in
      later (later half-Reach (reports (rw e w.not_empty))) (writes_newline refl)

  torn-last : torn.gateway.last_weather ≡ t
  torn-last =
      let e : (half s t).bytes ≡ t = ap (λ b. b ++ t) nothing in
      ap (λ b. (read_weather_from_fifo (reads_all b) s.gateway).0.last_weather) e
      ∙ ap (λ g. g.last_weather) (read_all s.gateway t w.not_empty (omega arith))
      ∙ ap until_newline (c_text_lem t w.text)
      ∙ until_newline-IsLine t w.line

  -- Whenever the FIFO is empty and client C is not writing, there is a run in which the gateway reads a text
  -- of client C, of at most 1000 bytes, before its newline. It then keeps this text; but the next report reads the newline alone,
  -- and, as cJSON does not parse the empty text, forgets the weather and tells the cloud of the city Unknown.
  pub torn_line :
      (c : Cjson) (print : Printer) (env : ReportEnv)
      → c.parse [] ≡ none
      → env.fifo ≡ reads_all (b'\n' ∷ [])
      → (read : Pipe) × Reach read
        × (read.written ≡ s.written ++ t ∷ [])
        × (read.bytes ≡ b'\n' ∷ [])
        × (read.gateway.last_weather ≡ t)
        × (properties_report c print env read.gateway
            ≡ some (
                act
                  (record read.gateway { last_weather = [] })
                  (reported (
                      services print env read.gateway (
                        members_of (bytes "Unknown") (bytes "Unknown") (bytes "25.5") (bytes "60")))
                    ∷ [])))
  torn_line c print env silent f = (
    torn,
    torn-Reach,
    refl,
    torn-bytes,
    torn-last,
    properties_report_lem c print env torn.gateway [] default_weather
        (members_of (bytes "Unknown") (bytes "Unknown") (bytes "25.5") (bytes "60"))
        (ap (λ e. read_weather e torn.gateway.last_weather) f
          ∙ read_newline torn.gateway.last_weather)
        (current_weather-empty c silent) default_members,
  )
