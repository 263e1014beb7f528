-- ===== src/Rpc/Laws.antt =====
-- The headers of a request, and when it succeeds.
use go_netflow.Base.{
  ◌≤◌, ◌<◌, ◌≡◌, refl, sym, ◌∙◌, ap, ◌↔◌, Bool, true, Option, none, some, [], ◌∷◌, ◌==◌, length,
  arith, Bool-cases, Option-cases, inl, inr,
}
use go_netflow.Base.Bytes.{Bytes, bytes_eq, bytes_eq_iff}
use go_netflow.Base.Dict.{Dict, lookup, insert, Distinct, lookup-insert, Fresh, lookup-Fresh}
use go_netflow.Base.Int64.{Int64, half64}
use go_netflow.Rpc.{
  UrlProvider, get_common_headers, put_all, get_with_params, ServerError, succeeds, Response,
  check_code, decoded, is_success, parse_response,
}

abbrev pub first_of : Option Bytes → Option Bytes → Option Bytes
first_of none o = o
first_of (some v) o = some v

first_of-none : (o : Option Bytes) → first_of o none ≡ o
first_of-none none = refl
first_of-none (some v) = refl

lookup-absent : (k j : Bytes) (m : Dict Bytes) → bytes_eq k j ≡ true → Fresh k m → lookup j m ≡ none
lookup-absent k j m e f = rw⁻¹ ((bytes_eq_iff k j).0 e) (lookup-Fresh k m f)

lookup-put_all :
    (m headers : Dict Bytes) (j : Bytes)
    → Distinct m
    → lookup j (put_all m headers) ≡ first_of (lookup j m) (lookup j headers)
unfolding put_all lookup
lookup-put_all [] headers j d = refl
lookup-put_all ((k, v) ∷ m) headers j d = elim (Bool-cases (bytes_eq k j)) [
  | inl e ↦
      rw
        (
          lookup-put_all m (insert k v headers) j d.1,
          lookup-insert k j v headers,
          e,
          lookup-absent k j m e d.0,
        )
        refl
  | inr e ↦ rw (lookup-put_all m (insert k v headers) j d.1, lookup-insert k j v headers, e) refl
]

get_common_headers-Distinct :
    (md5_hex : Bytes → Bytes) (p : UrlProvider) (now : Int64)
    → Distinct (get_common_headers md5_hex p.common_headers now)
unfolding get_common_headers insert bytes_eq
get_common_headers-Distinct md5_hex p now =
    elim (Bool-cases (length p.common_headers.device_id == 0)) [
      | inl e ↦ rw e (ground arith)
      | inr e ↦ rw e (ground arith)
    ]

-- The headers of a request with distinct parameters: a parameter has its own value, even in the
-- place of a common header; every other header is the common one.
pub lookup-get_with_params :
    (md5_hex : Bytes → Bytes) (p : UrlProvider) (now : Int64) (path j : Bytes) (params : Dict Bytes)
    → Distinct params
    → lookup j (get_with_params md5_hex p now path params).1
      ≡ first_of (lookup j params) (lookup j (get_common_headers md5_hex p.common_headers now))
unfolding get_with_params lookup
lookup-get_with_params md5_hex p now path j params d =
    let common = get_common_headers md5_hex p.common_headers now in
    lookup-put_all params (put_all common []) j d
    ∙ ap (first_of (lookup j params)) (
        lookup-put_all common [] j (get_common_headers-Distinct md5_hex p now)
        ∙ first_of-none (lookup j common))

check_code_iff :
    {D : Type 0} (o : Option (ServerError × Option D)) (content : Option D)
    → (check_code o ≡ succeeds content)
      ↔ ((e : ServerError) × (e.code ≡ 0) × (o ≡ some (e, content)))
unfolding check_code
check_code_iff none content =
    (λ h. absurd (ground (arith, h)), λ (e, z, h). absurd (ground (arith, h)))
check_code_iff (some (e, c)) content = (
  λ h. elim (Bool-cases (e.code == 0)) [
    | inl z ↦ (e, ground (arith, z), ground (arith, h, z))
    | inr n ↦ absurd (ground (arith, h, n))
  ],
  λ (x, z, h). ground (arith, z, h),
)

is_success_iff :
    (status : Int64)
    → status < half64
    → (is_success status ≡ true) ↔ ((200 ≤ status) × (status < 300))
is_success_iff status h = ground (arith, h)

parsed :
    {D : Type 0} (decode_data : Bytes → Option (ServerError × D))
    (decode : Bytes → Option ServerError) (wants_data : Bool) (rsp : Response) (buf : Bytes)
    → rsp.body ≡ some buf
    → is_success rsp.status_code ≡ true
    → parse_response decode_data decode wants_data rsp
      ≡ check_code (decoded decode_data decode wants_data buf)
unfolding parse_response check_code
parsed decode_data decode wants_data rsp buf e h = rw (parse_response, e, h) refl

-- A response is a success exactly if its body can be read, its status is from 200 to 299, and what
-- its body decodes to, in the way that the call asks for, has code 0.
pub parse_response_iff :
    {D : Type 0} (decode_data : Bytes → Option (ServerError × D))
    (decode : Bytes → Option ServerError) (wants_data : Bool) (rsp : Response) (content : Option D)
    → rsp.status_code < half64
    → (parse_response decode_data decode wants_data rsp ≡ succeeds content) ↔ (
        (buf : Bytes) × (rsp.body ≡ some buf)
        × (200 ≤ rsp.status_code)
        × (rsp.status_code < 300)
        × (e : ServerError) × (e.code ≡ 0)
        × (decoded decode_data decode wants_data buf ≡ some (e, content)))
unfolding parse_response
parse_response_iff decode_data decode wants_data rsp content h = (
  λ e. elim (Option-cases rsp.body) [
    | inl n ↦ absurd (ground (arith, e, n))
    | inr (buf, b) ↦ elim (Bool-cases (is_success rsp.status_code)) [
      | inl s ↦
          let (low, high) = (is_success_iff rsp.status_code h).0 s in
          let same = parsed decode_data decode wants_data rsp buf b s in
          let (x, z, d) = (check_code_iff _ content).0 (sym same ∙ e) in
          (buf, b, low, high, x, z, d)
      | inr n ↦ absurd (ground (arith, e, b, n))
    ]
  ],
  λ (buf, b, low, high, x, z, d).
      parsed decode_data decode wants_data rsp buf b
        ((is_success_iff rsp.status_code h).1 (low, high))
      ∙ (check_code_iff _ content).1 (x, z, d),
)
