-- ===== src/Rpc.antt =====
-- rpc/url.go and rpc/client.go: the address and the headers of a request, and what becomes of its
-- response. A map is its entries in the order in which `range` goes through it. The MD5 digest in
-- hexadecimal, the JSON decoder and the HTTP client are arguments.
pub mod Laws
pub mod Define
pub mod Client
pub mod Calls
pub mod Auth
mod Tests
use go_netflow.Base.{
  ℕ, Bool, true, false, not, ◌&&◌, Option, none, some, List, [], ◌∷◌, ◌++◌, if◌then◌else◌, ◌==◌,
  leb, ltb, length,
}
use go_netflow.Base.Bytes.{Bytes, codes, has_prefix}
use go_netflow.Base.Dict.{Dict, lookup, insert}
use go_netflow.Base.Int64.{Int64, ltb64}
use go_netflow.Base.Strconv.{format_int}

-- `CommonHeadersProvider`; its authenticator is never called.
pub record CommonHeadersProvider : Type 0 where
  pub image_version : Bytes
  pub device_id : Bytes
  pub biz_type : Bytes
  pub ak : Bytes
  pub app_secret : Bytes

-- `UrlProvider`
pub record UrlProvider : Type 0 where
  pub server_endpoint : Bytes
  pub common_headers : CommonHeadersProvider

-- `getSign` of rpc/auth.go
unfoldable pub get_sign : (Bytes → Bytes) → Bytes → Int64 → Bytes
get_sign md5_hex app_secret now = md5_hex (app_secret ++ b'#' ∷ format_int now)

-- `GetCommonHeaders`; `now` is the time in seconds.
unfoldable pub get_common_headers : (Bytes → Bytes) → CommonHeadersProvider → Int64 → Dict Bytes
get_common_headers md5_hex p now =
    let version = (if length p.image_version == 0 then codes "unknown" else p.image_version) in
    let headers =
      (codes "ak", p.ak)
      ∷ (codes "timestamp", format_int now)
      ∷ (codes "sign", get_sign md5_hex p.app_secret now)
      ∷ (codes "version", version)
      ∷ (codes "bizType", p.biz_type)
      ∷ (codes "agent", codes "v0.0.1")
      ∷ [] in
    if length p.device_id == 0 then headers else insert (codes "deviceID") p.device_id headers

-- `for k, v := range m { headers[k] = v }`
unfoldable pub put_all : Dict Bytes → Dict Bytes → Dict Bytes
put_all [] headers = headers
put_all ((k, v) ∷ m) headers = put_all m (insert k v headers)

-- `GetWithParams`
unfoldable pub get_with_params :
    (Bytes → Bytes) → UrlProvider → Int64 → Bytes → Dict Bytes → Bytes × Dict Bytes
get_with_params md5_hex p now path params =
    let http_url = p.server_endpoint ++ path in
    let common = get_common_headers md5_hex p.common_headers now in
    (
      if has_prefix http_url (codes "http") then http_url else codes "https://" ++ http_url,
      put_all params (put_all common []),
    )

-- `Get` of `UrlProvider`: no parameters.
unfoldable pub get_url : (Bytes → Bytes) → UrlProvider → Int64 → Bytes → Bytes × Dict Bytes
get_url md5_hex p now path = get_with_params md5_hex p now path []

-- `ServerError`
pub record ServerError : Type 0 where
  pub code : Int64
  pub message : Bytes
  pub event_id : Bytes

-- The errors of a request: of the client, of reading, of decoding, from the server.
pub data RequestError : Type 0 where
  request_failed read_failed decode_failed : RequestError
  server_error : ServerError → RequestError
  http_error : Int64 → Bytes → RequestError

-- What a request leaves: an error or not, and the data that was decoded into its reference.
pub data Reply (D : Type 0) : Type 0 where
  fails : RequestError → Reply D
  succeeds : Option D → Reply D

-- An HTTP response: its status, and its body if it can be read.
pub record Response : Type 0 where
  pub status_code : Int64
  pub body : Option Bytes

-- The decoding of `parseResponse`: into the reference if there is one, and of the code alone if
-- not.
unfoldable pub decoded :
    {D : Type 0}
    → (Bytes → Option (ServerError × D))
    → (Bytes → Option ServerError)
    → Bool
    → Bytes
    → Option (ServerError × Option D)
decoded decode_data decode true buf = elim (decode_data buf) [
  | none ↦ none
  | some (e, content) ↦ some (e, some content)
]
decoded decode_data decode false buf = elim (decode buf) [ none ↦ none | some e ↦ some (e, none) ]

-- The test of the code that the server sent: 0 is success.
unfoldable pub check_code : {D : Type 0} → Option (ServerError × Option D) → Reply D
check_code none = fails decode_failed
check_code (some (rsp, content)) =
    if rsp.code == 0 then succeeds content else fails (server_error rsp)

-- A status from 200 to 299.
abbrev pub is_success : Int64 → Bool
is_success status = not (ltb64 status 200) && ltb64 status 300

-- `parseResponse`: `wants_data` is whether there is a reference to decode into; the two decoders
-- are those of `ServerResponse` and of `ServerError`.
unfoldable pub parse_response :
    {D : Type 0}
    → (Bytes → Option (ServerError × D))
    → (Bytes → Option ServerError)
    → Bool
    → Response
    → Reply D
parse_response decode_data decode wants_data rsp = elim rsp.body [
  | none ↦ fails read_failed
  | some buf ↦
      if is_success rsp.status_code
      then check_code (decoded decode_data decode wants_data buf)
      else fails (http_error rsp.status_code buf)
]

-- The headers of `doExecuteRequest`: a body has a content type.
unfoldable pub request_headers : Bool → Dict Bytes → Dict Bytes
request_headers has_body headers =
    put_all headers (if has_body then (codes "Content-Type", codes "application/json") ∷ [] else [])

-- `doExecuteRequest`: `send` makes the request with its headers and sends it; `none` is its error.
unfoldable pub do_execute_request :
    {D : Type 0}
    → (Bytes → Option (ServerError × D))
    → (Bytes → Option ServerError)
    → (Dict Bytes → Option Response)
    → Bool
    → Bool
    → Dict Bytes
    → Reply D
do_execute_request decode_data decode send has_body wants_data headers =
    elim (send (request_headers has_body headers)) [
      | none ↦ fails request_failed
      | some rsp ↦ parse_response decode_data decode wants_data rsp
    ]
