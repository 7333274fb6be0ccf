-- ===== src/Forecast/Tests.antt =====
-- Runs of the weather query, on a reply that is read in two pieces.
use smart_home_weather_monit.Base.{ap, ◌≡◌, ◌≢◌, refl, some, [], ◌∷◌, arith}
use smart_home_weather_monit.Text.{str_eq, Bytes, bytes, c_text}
use smart_home_weather_monit.Forecast.Response.{
  response, read_response, json_start, joined, Starts, read_response-eq, json_start-Starts,
}
use smart_home_weather_monit.Forecast.Extract.{extract}
use smart_home_weather_monit.Forecast.Query.{
  Outcome, undefined, get_weather_data, get_weather_data_success,
}
use smart_home_weather_monit.Forecast.Resources.{
  held_after, nothing_held, get_weather_data-released,
}
use smart_home_weather_monit.Forecast.Sample.{piece_1, piece_2, document, cjson, network, report}

read_response-eq_example :
    read_response (piece_1 ∷ piece_2 ∷ []) ≡ response (joined (piece_1 ∷ piece_2 ∷ []))
read_response-eq_example = read_response-eq piece_1 (piece_2 ∷ [])

-- A reply with a line that is ended by LF.
abbrev short_reply : Bytes
short_reply = bytes "OK\n\n{..}"

json_start-Starts_example : Starts short_reply (json_start short_reply)
json_start-Starts_example = json_start-Starts short_reply

joined-json_start : json_start (c_text (joined (piece_1 ∷ piece_2 ∷ []))) ≡ some (bytes "{..}")
unfolding json_start c_text
joined-json_start = refl

document-parse : cjson.parse (bytes "{..}") ≡ some document
unfolding str_eq
document-parse = refl

document-extract : extract cjson document ≡ some report
unfolding extract str_eq
document-extract = refl

query-defined : (get_weather_data cjson network (bytes "Paris")).result ≢ undefined
query-defined e =
    let f =
      get_weather_data_success cjson network (bytes "Paris") piece_1 (piece_2 ∷ []) (bytes "{..}")
        document report 199 (omega arith) refl refl refl refl refl (refl, (refl, tt))
        joined-json_start document-parse document-extract in
    let g = ap (λ (o : Outcome). o.result) f in cc

get_weather_data-released_example :
    held_after nothing_held (get_weather_data cjson network (bytes "Paris")).effects
    ≡ some nothing_held
get_weather_data-released_example =
    get_weather_data-released cjson network (bytes "Paris") query-defined
