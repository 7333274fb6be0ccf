-- ===== src/System/Delivery.antt =====
-- A report on its way through client C, the weather FIFO and the gateway to the cloud.
use smart_home_weather_monit.Base.{
  ◌≤◌, ◌<◌, ◌≡◌, refl, ap, ◌∙◌, true, false, none, some, [], ◌∷◌, ◌++◌, arith, All-append, length,
  length-append,
}
use smart_home_weather_monit.Text.{Bytes, bytes}
use smart_home_weather_monit.Cjson.{Cjson}
use smart_home_weather_monit.Forecast.Extract.{Report, weather_string}
use smart_home_weather_monit.ClientC.{Client, unknown, fifo_written, weather_fifo, emit}
use smart_home_weather_monit.ClientC.Commands.{parse_command_type}
use smart_home_weather_monit.ClientC.Messages.{
  Fifos, is_confirmation, is_weather, handle_weather, parse_and_handle_message,
}
use smart_home_weather_monit.ClientC.Thread.{message_text}
use smart_home_weather_monit.ClientC.Weather.{json_text}
use smart_home_weather_monit.ClientC.Weather.Bounds.{length-json_text}
use smart_home_weather_monit.ClientC.Weather.Lines.{
  IsWord, IsWord-IsText, IsWord-IsLine, IsNumber-IsWord,
}
use smart_home_weather_monit.Gateway.{Gateway, reported, act}
use smart_home_weather_monit.Gateway.Delivery.{read_weather-line}
use smart_home_weather_monit.Gateway.Reports.{
  Printer, ReportEnv, properties_report, services, properties_report_lem,
}
use smart_home_weather_monit.System.Report.{IsPlain, percent, missing, body, percent-IsWord}
use smart_home_weather_monit.System.RoundTrip.{
  report-parse_weather, message_text-weather_string, length-shown,
}
use smart_home_weather_monit.System.Cloud.{
  ReadsAs, cloud_weather, filled, current_weather-ReadsAs, weather_members-filled,
  handle_text-weather,
}

labelled-IsWord : (l t rest : Bytes) → IsWord l → IsWord t → IsWord rest → IsWord (l ++ (t ++ rest))
labelled-IsWord l t rest hl ht hr =
    All-append (λ c. 32 < c) l (t ++ rest) hl (All-append (λ c. 32 < c) t rest ht hr)

-- The JSON text that client C writes is one visible word.
module _ {r : Report} {shown : Bytes} (v : IsPlain r shown) where
  abbrev pub json : Bytes
  json = json_text r.city_name r.weather r.temperature shown

  shown-IsWord : IsWord shown
  shown-IsWord = elim v.humidity [
    | percent s n e ↦ rw e (percent-IsWord v)
    | missing s m e ↦ rw e (omega arith)
  ]

  json-IsWord : IsWord json
  json-IsWord = labelled-IsWord (bytes "{\"city\":\"") r.city_name _ (omega arith) v.city (
      labelled-IsWord (bytes "\",\"weather\":\"") r.weather _ (omega arith) v.weather (
        labelled-IsWord (bytes "\",\"temperature\":\"") r.temperature _ (omega arith)
          (IsNumber-IsWord r.temperature v.temperature.0)
          (labelled-IsWord (bytes "\",\"humidity\":\"") shown (bytes "\"}") (omega arith)
            shown-IsWord (omega arith))))

  json-short : length (json ++ b'\n' ∷ []) ≤ 1023
  json-short = omega (
    arith,
    length-append json (b'\n' ∷ []),
    length-json_text r.city_name r.weather r.temperature shown,
    v.city_short,
    v.weather_short,
    v.temperature.2,
    length-shown v,
  )

  body-is_weather : is_weather (body r) ≡ true
  unfolding is_weather
  body-is_weather = refl

  handle_weather-body :
      (fifos : Fifos) (c : Client)
      → fifos.found weather_fifo ≡ true
      → fifos.opened weather_fifo ≡ true
      → c.config.weather_callback ≡ none
      → handle_weather fifos c (body r) ≡ some (emit c (fifo_written weather_fifo json))
  unfolding handle_weather
  handle_weather-body fifos c found opened silent =
      let (w, e, f) = report-parse_weather v in
      let e' = rw (message_text-weather_string v) at e in
      rw (e', handle_weather) (rw (f, handle_weather) (ground arith))

  parse_and_handle_message-body :
      (fifos : Fifos) (c : Client)
      → is_confirmation (body r) ≡ false
      → parse_command_type (some (body r)) ≡ unknown
      → fifos.found weather_fifo ≡ true
      → fifos.opened weather_fifo ≡ true
      → c.config.weather_callback ≡ none
      → parse_and_handle_message fifos c (some (body r))
        ≡ some (emit c (fifo_written weather_fifo json))
  unfolding parse_and_handle_message
  parse_and_handle_message-body fifos c confirms commands found opened silent =
      handle_text-weather fifos c (body r) confirms commands body-is_weather
      ∙ handle_weather-body fifos c found opened silent

  properties_report-json :
      (c : Cjson) (print : Printer) (env : ReportEnv) (g : Gateway)
      → ReadsAs c json r.city_name r.weather r.temperature shown
      → env.fifo.found ≡ true
      → env.fifo.opened ≡ true
      → env.fifo.content ≡ some (json ++ b'\n' ∷ [])
      → properties_report c print env g
        ≡ some (
            act
              (record g { last_weather = json })
              (reported
                  (services print env g (cloud_weather r.city_name r.weather r.temperature shown))
                ∷ []))
  properties_report-json c print env g reads found opened content =
      properties_report_lem c print env g json (filled c reads)
        (cloud_weather r.city_name r.weather r.temperature shown)
        (read_weather-line env.fifo g.last_weather json [] found opened content
          (IsWord-IsText json json-IsWord) (IsWord-IsLine json json-IsWord) json-short)
        (current_weather-ReadsAs c reads)
        (weather_members-filled c reads (IsWord-IsText r.city_name v.city) v.city_short
          (IsWord-IsText r.weather v.weather) v.weather_short
          (IsWord-IsText r.temperature (IsNumber-IsWord r.temperature v.temperature.0))
          (omega (arith, v.temperature.2)) (IsWord-IsText shown shown-IsWord) (length-shown v))

  -- A report of the service's data that client A sends, and that names no command and no connection,
  -- reaches the cloud. Client C, with the weather FIFO open and no callback of its own, does nothing but
  -- write one line into it; and the gateway, with that line in the FIFO and a cJSON that reads it as an
  -- object of four strings, reports the city, the weather, the temperature and the humidity that
  -- forecast.c printed, and the wind always as "North".
  pub report_delivered :
      (fifos : Fifos) (client : Client) (c : Cjson) (print : Printer) (env : ReportEnv)
      (g : Gateway)
      → is_confirmation (message_text (weather_string r)) ≡ false
      → parse_command_type (some (message_text (weather_string r))) ≡ unknown
      → fifos.found weather_fifo ≡ true
      → fifos.opened weather_fifo ≡ true
      → client.config.weather_callback ≡ none
      → ReadsAs c json r.city_name r.weather r.temperature shown
      → env.fifo.found ≡ true
      → env.fifo.opened ≡ true
      → env.fifo.content ≡ some (json ++ b'\n' ∷ [])
      → (parse_and_handle_message fifos client (some (message_text (weather_string r)))
          ≡ some (emit client (fifo_written weather_fifo json)))
        × (properties_report c print env g
            ≡ some (
                act
                  (record g { last_weather = json })
                  (reported (
                      services print env g
                        (cloud_weather r.city_name r.weather r.temperature shown))
                    ∷ [])))
  report_delivered fifos client c print env g confirms commands found opened silent reads f o
        content =
      let e = message_text-weather_string v in
      (
        ap (λ t. parse_and_handle_message fifos client (some t)) e
            ∙ parse_and_handle_message-body fifos client (rw e at confirms) (rw e at commands) found
                opened silent,
        properties_report-json c print env g reads f o content,
      )
