-- ===== src/Rpc/Auth.antt =====
-- rpc/auth.go: the authenticator, which the headers of url.go have a field for and no method calls.
-- The MD5 digest in hexadecimal is an argument, and `now` is the time in seconds.
use go_netflow.Base.{◌||◌, [], ◌∷◌, if◌then◌else◌, ◌==◌, length}
use go_netflow.Base.Bytes.{Bytes, codes}
use go_netflow.Base.Dict.{Dict}
use go_netflow.Base.Int64.{Int64}
use go_netflow.Base.Outcome.{Outcome, panic, returns}
use go_netflow.Base.Strconv.{format_int}
use go_netflow.Rpc.{get_sign}

-- `autheticatorImpl`
pub record AutheticatorImpl : Type 0 where
  pub app_key : Bytes
  pub app_secret : Bytes

-- `NewAutheticator`
unfoldable pub new_autheticator : Bytes → Bytes → Outcome AutheticatorImpl
new_autheticator app_key app_secret =
    if length app_key == 0 || length app_secret == 0
    then panic
    else returns (record { app_key = app_key; app_secret = app_secret })

-- `GetAuthHeaders`: the key and the secret that it sends are constants.
unfoldable pub get_auth_headers : (Bytes → Bytes) → AutheticatorImpl → Int64 → Dict Bytes
get_auth_headers md5_hex a now =
    (codes "ak", codes "gfjqXeKSKDIkkaIO9A7Pz5CV")
    ∷ (codes "timestamp", format_int now)
    ∷ (codes "sign", get_sign md5_hex (codes "A9QbSBGJXksjdopSDFaQ0Dnlr4ulx6") now)
    ∷ []
