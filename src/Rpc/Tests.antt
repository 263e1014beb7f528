-- ===== src/Rpc/Tests.antt =====
-- Runs of the requests, and instances of their theorems.
use go_netflow.Base.{◌≤◌, ◌<◌, ◌≡◌, refl, ◌↔◌, true, Option, some, [], ◌∷◌, arith}
use go_netflow.Base.Bytes.{Bytes, codes, has_prefix}
use go_netflow.Base.Dict.{Dict, lookup}
use go_netflow.Rpc.{
  UrlProvider, get_common_headers, get_with_params, ServerError, succeeds, Response, decoded,
  check_code, parse_response,
}
use go_netflow.Rpc.Laws.{first_of, lookup-get_with_params, parse_response_iff}

abbrev provider : UrlProvider
provider = record {
  server_endpoint = codes "example.org";
  common_headers = record {
    image_version = [];
    device_id = codes "d1";
    biz_type = codes "cdn";
    ak = codes "key";
    app_secret = codes "secret";
  };
}

abbrev params : Dict Bytes
params = (codes "version", codes "2") ∷ []

url_run :
    (get_with_params (λ s. s) provider 0 (codes "/api") params).0 ≡ codes "https://example.org/api"
unfolding get_with_params has_prefix
url_run = refl

lookup-get_with_params_example :
    lookup (codes "version") (get_with_params (λ s. s) provider 0 (codes "/api") params).1
    ≡ first_of
        (lookup (codes "version") params)
        (lookup (codes "version") (get_common_headers (λ s. s) provider.common_headers 0))
lookup-get_with_params_example =
    lookup-get_with_params (λ s. s) provider 0 (codes "/api") (codes "version") params (tt, tt)

abbrev answer : ServerError
answer = record { code = 0; message = []; event_id = [] }

abbrev decode_data : Bytes → Option (ServerError × Bytes)
decode_data buf = some (answer, buf)

abbrev decode : Bytes → Option ServerError
decode buf = some answer

abbrev response : Response
response = record { status_code = 201; body = some (codes "x") }

parse_response_iff_example :
    (parse_response decode_data decode true response ≡ succeeds (some (codes "x"))) ↔ (
      (buf : Bytes) × (response.body ≡ some buf)
      × (200 ≤ response.status_code)
      × (response.status_code < 300)
      × (e : ServerError) × (e.code ≡ 0)
      × (decoded decode_data decode true buf ≡ some (e, some (codes "x"))))
parse_response_iff_example =
    parse_response_iff decode_data decode true response (some (codes "x")) (omega arith)

parse_response_run : parse_response decode_data decode true response ≡ succeeds (some (codes "x"))
unfolding parse_response check_code decoded
parse_response_run = refl
