-- ===== src/Api/Config/Tests.antt =====
-- Settings for frontend/src/lib/api/config.ts.
use stechbaza_iot.Prelude.{Option, String, none, refl, some, ◌≡◌}
use stechbaza_iot.Api.Config.{
  normalize_api_base_url, normalize_timeout, origin_of_url, strip_slashes, trimmed_or,
}
use stechbaza_iot.Api.Config.Checked.{IsBackend, normalize_api_base_url-IsBackend}
use stechbaza_iot.Api.Errors.{ok}
use stechbaza_iot.Host.{Url}
use stechbaza_iot.Host.Sample.{sample}
use stechbaza_iot.Js.Text.{trim}

abbrev backend_url : Url
backend_url = record {
  href = "https://api.example/api/v1/";
  origin = "https://api.example";
  protocol = "https:";
  username = "";
  password = "";
  pathname = "/api/v1/";
  search = "";
  hash = "";
}

abbrev parse_backend : String → Option Url
parse_backend text = some backend_url

backend-accepted :
    normalize_api_base_url parse_backend (some "https://api.example/api/v1/")
    ≡ ok "https://api.example"
unfolding normalize_api_base_url origin_of_url strip_slashes trimmed_or trim
backend-accepted = refl

normalize_api_base_url-IsBackend_example :
    IsBackend parse_backend (some "https://api.example/api/v1/") "https://api.example"
normalize_api_base_url-IsBackend_example =
    normalize_api_base_url-IsBackend parse_backend (some "https://api.example/api/v1/")
      "https://api.example" backend-accepted

default_timeout : normalize_timeout none ≡ ok 10000
unfolding normalize_timeout
default_timeout = refl
