-- ===== src/Forecast/Sample.antt =====
-- A run of the weather query, for concrete runs of the programs.
use smart_home_weather_monit.Base.{some, ◌≡◌, refl, true, [], ◌∷◌}
use smart_home_weather_monit.Text.{str_eq, Bytes, bytes, c_text}
use smart_home_weather_monit.Cjson.{Cjson}
use smart_home_weather_monit.Cjson.Sample.{
  Json, text, array, object, nil, cons, end, field, reading,
}
use smart_home_weather_monit.Forecast.Response.{Chunk, read_response, json_start}
use smart_home_weather_monit.Forecast.Extract.{Report, extract, weather_string}
use smart_home_weather_monit.Forecast.Query.{Network, weather, get_weather_data}

abbrev pub piece_1 : Chunk
piece_1 = record { content = bytes "HTTP/1.1 200 OK\r\n\r\n "; reallocated = true }

abbrev pub piece_2 : Chunk
piece_2 = record { content = bytes "{..}"; reallocated = true }

-- The document, with the fields that the service sends for free.
abbrev pub document : Json
document = object (
    field (bytes "results")
      (array (
        cons
          (object (
            field (bytes "location") (object (field (bytes "name") (text (bytes "Paris")) end)) (
              field (bytes "now")
                (object (
                  field (bytes "text") (text (bytes "Rain"))
                    (field (bytes "temperature") (text (bytes "12")) end)))
                end)))
          nil))
      end)

abbrev pub cjson : Cjson
cjson = reading (bytes "{..}") document

abbrev pub network : Network
network = record {
  resolved = true;
  connects = true;
  written = some 200;
  reads = piece_1 ∷ piece_2 ∷ [];
  allocated = true;
}

abbrev pub report : Report
report = record {
  city_name = bytes "Paris";
  weather = bytes "Rain";
  temperature = bytes "12";
  humidity = bytes "N/A";
  wind_direction = bytes "N/A";
  wind_speed = bytes "N/A";
  wind_scale = bytes "N/A";
}

-- The reply is read in two pieces, and its document is found.
pub sunny :
    (city : Bytes) → (get_weather_data cjson network city).result ≡ weather (weather_string report)
unfolding get_weather_data json_start c_text str_eq extract read_response
sunny city = refl
