-- ===== src/Proxy/Http.antt =====
-- What rathole/src/proxy.rs uses of the crates http, axum and hyper, as a parameter, and the
-- requests and responses over it.
use rathole_with_proxy.Base.{
  ℕ, ◌≡◌, Option, none, some, List, Text, text_eq, Bytes, ◌==◌, if◌then◌else◌,
}

-- `HeaderMap`, `HeaderName`, `HeaderValue` and `Uri`.
pub record Http : Type 1 where
  pub Headers : Type 0
  pub Value : Type 0
  pub Uri : Type 0
  pub no_headers : Headers
  pub get_header : Headers → Text → Option Value
  pub insert_header : Headers → Text → Value → Headers
  pub append_header : Headers → Text → Value → Headers
  pub iter : Headers → List (Text × Value)
  pub to_str : Value → Option Text
  pub from_str : Text → Option Value
  -- `HeaderName::from_bytes`, as the name in lower case.
  pub header_name : Text → Option Text
  pub parse_uri : Text → Option Uri
  -- `HeaderMap::insert` sets the one value of its name and leaves the others.
  pub get-insert :
      (h : Headers) (k j : Text) (v : Value)
      → get_header (insert_header h k v) j ≡ (if k == j then some v else get_header h j)

-- A request: its parts, and what reading the whole body gives.
pub record Request (h : Http) : Type 0 where
  pub method : Text
  pub path_and_query : Option Text
  pub headers : h.Headers
  pub body : Option Bytes

pub record Response (h : Http) : Type 0 where
  pub status : ℕ
  pub headers : h.Headers
  pub body : Bytes

-- What a handler returns: `Ok`, `Err` with a status code, or a panic.
pub data Reply {ℓ} (A : Type ℓ) : Type ℓ where
  ok : A → Reply A
  err : ℕ → Reply A
  panic : Reply A

infixl 5 ◌>>=◌
abbrev pub ◌>>=◌ {ℓ κ} : {A : Type ℓ} {B : Type κ} → Reply A → (A → Reply B) → Reply B
ok a >>= k = k a
err e >>= k = err e
panic >>= k = panic

-- `ok_or(e)?`
abbrev pub or_err {ℓ} : {A : Type ℓ} → Option A → ℕ → Reply A
or_err none e = err e
or_err (some a) e = ok a

-- `Option::unwrap`
abbrev pub unwrap {ℓ} : {A : Type ℓ} → Option A → Reply A
unwrap none = panic
unwrap (some a) = ok a

-- The codes of `StatusCode` that the proxy answers with.
abbrev pub bad_request : ℕ
bad_request = 400

abbrev pub internal_server_error : ℕ
internal_server_error = 500

abbrev pub bad_gateway : ℕ
bad_gateway = 502

abbrev pub gateway_timeout : ℕ
gateway_timeout = 504
