-- ===== src/Rpc/Calls.antt =====
-- What a call of the client comes to: the reply to one request.
use go_netflow.Base.{◌≡◌, refl, Bool, Option, none, some}
use go_netflow.Base.Bytes.{Bytes}
use go_netflow.Base.Int64.{Int64}
use go_netflow.Rpc.{
  UrlProvider, get_url, request_failed, Reply, fails, parse_response, request_headers,
  do_execute_request,
}
use go_netflow.Rpc.Client.{Request, has_body, execute_request, Transport, call}

-- The reply to a request.
unfoldable pub answer : {D : Type 0} → Transport D → Bool → Request → Reply D
answer tr wants_data req = elim (tr.send req) [
  | none ↦ fails request_failed
  | some rsp ↦ parse_response tr.decode_data tr.decode wants_data rsp
]

-- The address and the headers are those of the `UrlProvider` for the path, with a content type
-- before them exactly if there is a body.
abbrev pub request :
    {D : Type 0} → Transport D → UrlProvider → Int64 → Bytes → Bytes → Option Bytes → Request
request tr provider now method path body = record {
  method = method;
  url = (get_url tr.md5_hex provider now path).0;
  headers = request_headers (has_body body) (get_url tr.md5_hex provider now path).1;
  body = body;
}

-- A call is the reply to its request.
pub call_lem :
    {D : Type 0} (tr : Transport D) (provider : UrlProvider) (now : Int64) (method path : Bytes)
    (body : Option Bytes) (wants_data : Bool)
    → call tr provider now method path body wants_data
      ≡ answer tr wants_data (request tr provider now method path body)
unfolding call execute_request do_execute_request answer
call_lem tr provider now method path body wants_data = refl
