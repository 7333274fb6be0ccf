-- ===== src/Forecast/Query.antt =====
-- `get_weather_data`: what the network, the allocator and cJSON answer are arguments; what the function
-- acquires, sends and releases on the way is listed in order.
use smart_home_weather_monit.Base.{
  ℕ, zero, suc, take, Option, ◌≡◌, Bool, true, false, none, some, List, [], ◌∷◌, ◌++◌, arith, ◌≤◌,
  length, take_all, length-append, if◌then◌else◌,
}
use smart_home_weather_monit.Text.{Bytes, bytes, c_text, snprintf}
use smart_home_weather_monit.Cjson.{Cjson}
use smart_home_weather_monit.Forecast.Response.{
  Chunk, Reply, no_memory, no_response, response, read_response, json_start, AllReallocated, joined,
  read_response-joined,
}
use smart_home_weather_monit.Forecast.Extract.{Report, extract, weather_string}

pub record Network : Type 0 where
  pub resolved : Bool  -- gethostbyname
  pub connects : Bool  -- connect
  pub written : Option ℕ  -- write of the request: how many bytes it takes; none is -1
  pub reads : List Chunk
  pub allocated : Bool  -- malloc(400)

pub data Resource : Type 0 where
  socket response_text json_root : Resource

pub data Effect : Type 0 where
  acquired : Resource → Effect
  released : Resource → Effect
  wrote : Bytes → Effect

pub data Result : Type 0 where
  undefined : Result  -- the source reads behind a string
  null : Result
  weather : Bytes → Result

pub record Outcome : Type 0 where
  pub effects : List Effect
  pub result : Result

abbrev pub after : List Effect → Outcome → Outcome
after es o = record o { effects = es ++ o.effects }

-- The request for a city, in the buffer of 1024 bytes.
abbrev pub request_text : Bytes → Bytes
request_text city =
    bytes "GET /v3/weather/now.json?key=SK4cNZ6Q9wXmiwJ0r&location="
    ++ (city
        ++ bytes
            "&language=zh-Hans&unit=c HTTP/1.1\r\nHost: api.seniverse.com\r\nUser-Agent: WeatherClient/1.0\r\nConnection: close\r\n\r\n")

unfoldable pub request : Bytes → Bytes
request city = snprintf 1024 (request_text city)

-- From the parsed root to the end.
unfoldable pub report_root : (c : Cjson) → Bool → c.Node → Outcome
report_root c allocated root = elim (extract c root) [
  | none ↦ record { effects = released json_root ∷ released response_text ∷ []; result = null }
  | some r ↦ record {
    effects = released json_root ∷ released response_text ∷ [];
    result = if allocated then weather (weather_string r) else null;
  }
]

-- From the complete response to the end.
unfoldable pub read_report : (c : Cjson) → Bool → Bytes → Outcome
unfolding report_root
read_report c allocated reply = elim (json_start (c_text reply)) [
  | none ↦ record { effects = []; result = undefined }
  | some text ↦ elim (c.parse text) [
    | none ↦ record { effects = released response_text ∷ []; result = null }
    | some root ↦ after (acquired json_root ∷ []) (report_root c allocated root)
  ]
]

-- What follows the read loop. The response is allocated by its first `realloc`.
unfoldable pub finish_reading : (c : Cjson) → Bool → Reply → Outcome
unfolding read_report
finish_reading c allocated (no_memory true) = record {
  effects = acquired response_text ∷ released response_text ∷ released socket ∷ [];
  result = null;
}
finish_reading c allocated (no_memory false) = record {
  effects = released socket ∷ [];
  result = null;
}
finish_reading c allocated no_response = record { effects = released socket ∷ []; result = null }
finish_reading c allocated (response reply) =
    after (acquired response_text ∷ released socket ∷ []) (read_report c allocated reply)

unfoldable pub get_weather_data : Cjson → Network → Bytes → Outcome
unfolding finish_reading
get_weather_data c net city =
    if net.resolved
    then (if net.connects
        then elim net.written [
          | none ↦ record { effects = acquired socket ∷ released socket ∷ []; result = null }
          | some zero ↦ record { effects = acquired socket ∷ released socket ∷ []; result = null }
          | some (suc n) ↦
              after (acquired socket ∷ wrote (take (suc n) (request city)) ∷ [])
                (finish_reading c net.allocated (read_response net.reads))
        ]
        else record { effects = acquired socket ∷ released socket ∷ []; result = null })
    else record { effects = []; result = null }

-- The buffer is large enough for the request.
request_fits : (city : Bytes) → length city ≤ 49 → request city ≡ request_text city
unfolding request
request_fits city h = take_all 1023 (request_text city) (
    omega (
      arith,
      length-append city (
          bytes
            "&language=zh-Hans&unit=c HTTP/1.1\r\nHost: api.seniverse.com\r\nUser-Agent: WeatherClient/1.0\r\nConnection: close\r\n\r\n"),
    ))

-- A query for a city that fits `current_city`, whose calls succeed, sends the bytes of the request that
-- `write` takes, returns the
-- report of the root that cJSON finds in the joined reads, and releases the socket, the root and the
-- response, in this order.
pub get_weather_data_success :
    (c : Cjson) (net : Network) (city : Bytes) (r : Chunk) (rest : List Chunk) (text : Bytes)
    (root : c.Node) (report : Report) (n : ℕ)
    → length city ≤ 49
    → net.resolved ≡ true
    → net.connects ≡ true
    → net.written ≡ some (suc n)
    → net.allocated ≡ true
    → net.reads ≡ r ∷ rest
    → AllReallocated (r ∷ rest)
    → json_start (c_text (joined (r ∷ rest))) ≡ some text
    → c.parse text ≡ some root
    → extract c root ≡ some report
    → get_weather_data c net city ≡ record {
      effects =
          acquired socket
          ∷ wrote (take (suc n) (request_text city))
          ∷ acquired response_text
          ∷ released socket
          ∷ acquired json_root
          ∷ released json_root
          ∷ released response_text
          ∷ [];
      result = weather (weather_string report);
    }
unfolding get_weather_data
get_weather_data_success c net city r rest text root report n short a b w m e h js p x =
    ground (arith, request_fits city short, read_response-joined r rest h)
