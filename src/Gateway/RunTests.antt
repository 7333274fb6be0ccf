-- ===== src/Gateway/RunTests.antt =====
-- The cloud switches the LED on, and the gateway reports.
use smart_home_weather_monit.Base.{List, map, none, Option, [], ◌∷◌, ◌++◌}
use smart_home_weather_monit.Text.{Bytes, bytes}
use smart_home_weather_monit.Gateway.{Gateway, act, reported}
use smart_home_weather_monit.Gateway.Requests.{handle_command_request}
use smart_home_weather_monit.Gateway.Commands.{commanded}
use smart_home_weather_monit.Gateway.Samples.{
  switching, online, filled, led_request, switching_cjson, doc_1,
}
use smart_home_weather_monit.Gateway.Reports.{
  Printer, ReportEnv, smoke_payload, services_of, finish_report,
}
use smart_home_weather_monit.Gateway.Buffers.{Finished, finish_report_total}
use smart_home_weather_monit.Gateway.Interleaving.{Happened, ordered, begun, told, added}

abbrev prints_nothing : Printer
prints_nothing members = none

abbrev switched : Gateway
switched = handle_command_request switching_cjson switching online doc_1 (bytes "id")

abbrev report_env : ReportEnv
report_env = record { fifo = filled; first_random = 1; second_random = 2 }

abbrev smoke : Option Bytes
smoke = smoke_payload prints_nothing report_env online

abbrev report :
    Finished switching_cjson prints_nothing smoke switched
      (finish_report switching_cjson prints_nothing report_env.fifo smoke switched)
report = finish_report_total switching_cjson prints_nothing report_env.fifo smoke switched

-- The gateway after its report.
abbrev told_cloud : Gateway
told_cloud =
    act (record switched { last_weather = report.0 })
      (reported (services_of prints_nothing smoke switched report.1) ∷ [])

-- The report begins, then the LED is ordered on, and the report ends.
abbrev orders : List Happened
orders = begun ∷ map ordered (commanded switching_cjson led_request)

abbrev seen : List Happened
seen = orders ++ told (added switched told_cloud) ∷ []
