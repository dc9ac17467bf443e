-- ===== src/Api/Client/Tests.antt =====
-- A request of frontend/src/lib/api/client.ts that the backend refuses.
use stechbaza_iot.Prelude.{List, String, [], false, none, refl, some, true, ◌∷◌, ◌≡◌}
use stechbaza_iot.Api.Client.{
  ApiRequestOptions, Exchange, api_request, append_query, authorization, content_header,
  header_entries, missing_value, params_of, request_headers, shown_value,
}
use stechbaza_iot.Api.Client.Failures.{IsAnswer, api_request-IsAnswer}
use stechbaza_iot.Api.Config.{build_api_url}
use stechbaza_iot.Host.{Url}
use stechbaza_iot.Host.Sample.{sample}
use stechbaza_iot.Prelude.Int.{pos}

abbrev sites_request : ApiRequestOptions
sites_request = record {
  path = "/api/v1/sites";
  method = none;
  query = ("limit", shown_value "21" ∷ []) ∷ ("after", missing_value ∷ []) ∷ [];
  body = none;
  headers = [];
  access_token = some "token";
  csrf = false;
  credentials = none;
}

abbrev lost : Exchange
lost = record { response = none; did_timeout = true; is_aborted = true; now = pos 0 }

abbrev keep_url : Url → List (String × String) → Url
keep_url url pairs = url

pairs : append_query sites_request.query ≡ ("limit", "21") ∷ []
unfolding append_query params_of
pairs = refl

api_request-IsAnswer_example :
    IsAnswer lost "GET" "/api/v1/sites" (api_request keep_url sites_request lost)
unfolding build_api_url
api_request-IsAnswer_example =
    api_request-IsAnswer keep_url sites_request lost
      (record {
        href = "/api/v1/sites";
        origin = "http://127.0.0.1:8001";
        protocol = "http:";
        username = "";
        password = "";
        pathname = "/api/v1/sites";
        search = "";
        hash = "";
      })
      (("Accept", "application/json") ∷ ("Authorization", "Bearer token") ∷ []) refl
      (unfold request_headers header_entries authorization content_header in refl)
