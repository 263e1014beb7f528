-- ===== src/Rpc/Client.antt =====
-- rpc/client.go: `executeRequest` and the methods of the client. A request is what the HTTP client
-- is given; the JSON encoder is an argument.
use go_netflow.Base.{Bool, true, false, Option, none, some, List}
use go_netflow.Base.Bytes.{Bytes, codes}
use go_netflow.Base.Dict.{Dict}
use go_netflow.Base.Int64.{Int64}
use go_netflow.Rpc.{UrlProvider, get_url, ServerError, Reply, Response, do_execute_request}
use go_netflow.Rpc.Define.{
  MonitorInfo, RegisterRsp, DeviceInfo, DeploymentStatusResult, NetCardInfo, Netcards,
  NetworkTestResult, DiskResults, HeartbeatRsp,
}

-- `http.Request`, as `doExecuteRequest` fills it in.
pub record Request : Type 0 where
  pub method : Bytes
  pub url : Bytes
  pub headers : Dict Bytes
  pub body : Option Bytes

abbrev pub has_body : Option Bytes → Bool
has_body none = false
has_body (some body) = true

-- `executeRequest`
unfoldable pub execute_request :
    {D : Type 0}
    → (Bytes → Option (ServerError × D))
    → (Bytes → Option ServerError)
    → (Request → Option Response)
    → Bytes
    → Bytes
    → Dict Bytes
    → Option Bytes
    → Bool
    → Reply D
execute_request decode_data decode send method url headers body wants_data =
    do_execute_request decode_data decode
      (λ hs. send (record { method = method; url = url; headers = hs; body = body }))
      (has_body body) wants_data headers

-- What a client is made of, beside its `UrlProvider`: the digest, the decoders of the two kinds of
-- response, and the HTTP client.
pub record Transport (D : Type 0) : Type 0 where
  pub md5_hex : Bytes → Bytes
  pub decode_data : Bytes → Option (ServerError × D)
  pub decode : Bytes → Option ServerError
  pub send : Request → Option Response

-- A call of a method: the path, then `executeRequest`; `now` is the time in seconds.
unfoldable pub call :
    {D : Type 0} → Transport D → UrlProvider → Int64 → Bytes → Bytes → Option Bytes → Bool → Reply D
call tr provider now method path body wants_data =
    let (url, headers) = get_url tr.md5_hex provider now path in
    execute_request tr.decode_data tr.decode tr.send method url headers body wants_data

-- The methods. `encode` is the JSON of the map that is the body: of the one key "data", or of the
-- two fields that it takes.
unfoldable pub register_device :
    Transport RegisterRsp
    → (DeviceInfo → Bytes)
    → UrlProvider
    → Int64
    → DeviceInfo
    → Reply RegisterRsp
register_device tr encode provider now device =
    call tr provider now (codes "POST") (codes "/api/common/v1/register") (some (encode device))
      true

-- The methods that only report give no reference for the data of the response.
module _ {D : Type 0} (tr : Transport D) where
  unfoldable pub report_deployment_status :
      (DeploymentStatusResult → Bytes) → UrlProvider → Int64 → DeploymentStatusResult → Reply D
  report_deployment_status encode provider now result =
      call tr provider now (codes "POST") (codes "/api/common/v1/update/deployment/status")
        (some (encode result)) false

  unfoldable pub report_device_info :
      (DeviceInfo → Bytes) → UrlProvider → Int64 → DeviceInfo → Reply D
  report_device_info encode provider now device =
      call tr provider now (codes "POST") (codes "/api/common/v1/sync/hardware")
        (some (encode device)) false

  unfoldable pub report_monitor_info :
      (List MonitorInfo → Bytes) → UrlProvider → Int64 → List MonitorInfo → Reply D
  report_monitor_info encode provider now infos =
      call tr provider now (codes "POST") (codes "/api/common/v1/nethogs/monitor")
        (some (encode infos)) false

  unfoldable pub report_net_card_info :
      (Int64 → List NetCardInfo → Bytes) → UrlProvider → Int64 → Netcards → Reply D
  report_net_card_info encode provider now cards =
      call tr provider now (codes "POST") (codes "/api/common/v1/sync/network")
        (some (encode cards.modify_time cards.netcards)) false

  unfoldable pub report_test :
      (List NetworkTestResult → List DiskResults → Bytes)
      → UrlProvider
      → Int64
      → List NetworkTestResult
      → List DiskResults
      → Reply D
  report_test encode provider now network_test disk_results =
      call tr provider now (codes "POST") (codes "/api/common/v1/test/result")
        (some (encode network_test disk_results)) false

-- `GetDialingInfo` has no body; the data of its response are the cards.
unfoldable pub get_dialing_info :
    Transport (List NetCardInfo) → UrlProvider → Int64 → Reply (List NetCardInfo)
get_dialing_info tr provider now =
    call tr provider now (codes "GET") (codes "/api/common/v1/dialinginfo") none true

unfoldable pub report_heartbeat : Transport HeartbeatRsp → UrlProvider → Int64 → Reply HeartbeatRsp
report_heartbeat tr provider now =
    call tr provider now (codes "POST") (codes "/api/common/v1/heartbeat") (some (codes "{}")) true
