-- ===== src/Host/Sample.antt =====
-- A host at which the examples are computed: texts that are lower case already, dates of one
-- morning, small whole numbers, and a backend on the loopback address.
use stechbaza_iot.Prelude.{Option, String, if◌then◌else◌, none, some, str_eq, true}
use stechbaza_iot.Host.{Host, Url}
use stechbaza_iot.Js.Number.{Number, dyadic, nan, nat}
use stechbaza_iot.Prelude.Int.{pos, ℤ}

abbrev sample_date : String → Option ℤ
sample_date s =
    if str_eq s "2026-10-05T08:00:00.000250Z"
    then some (pos 1791187200000)
    else if str_eq s "2026-10-05T08:00:00.000125Z"
    then some (pos 1791187200000)
    else if str_eq s "2026-10-05"
    then some (pos 1791158400000)
    else if str_eq s "2026-10-05T08:40:00Z"
    then some (pos 1791189600000)
    else if str_eq s "2026-10-05T09:00:00Z"
    then some (pos 1791190800000)
    else none

abbrev sample_number : String → Number
sample_number s =
    if str_eq s "30" then nat 30 else if str_eq s "50.5" then dyadic (pos 101) 1 else nan

abbrev sample_url : String → String → Option Url
sample_url path base = some (record {
  href = path;
  origin = "http://127.0.0.1:8001";
  protocol = "http:";
  username = "";
  password = "";
  pathname = path;
  search = "";
  hash = "";
})

instance abbrev pub sample : Host
sample = record {
  lower = λ s. s;
  to_number = sample_number;
  number_text = λ x. "";
  date_parse = sample_date;
  new_url = sample_url;
  is_header = λ name value. true;
  encode = λ s. s;
  config = record { base_url = "http://127.0.0.1:8001"; timeout_ms = 10000 };
}
