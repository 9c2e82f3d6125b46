-- ===== src/Gateway/Tunnel.antt =====
-- The route `/tunnel/{id}/{*path}` (rathole/src/main.rs: tunnel) and the errors that it answers
-- with (rathole/src/error.rs, rathole/src/lib.rs: into_response). The text of a library's error is
-- the error.
pub mod Leak
use rathole_with_proxy.Base.{
  ℕ, Bool, true, false, ◌&&◌, Option, none, some, List, [], ◌∷◌, ◌++◌, Text, text_eq, codes, Bytes,
  get, insert, leb, if◌then◌else◌,
}
use rathole_with_proxy.Message.{HttpRequest, HttpResponse, ControlMessage, request}
use rathole_with_proxy.Proxy.Http.{Http, Response}
use rathole_with_proxy.Proxy.State.{AppState}

pub data AppError : Type 0 where
  invalid_credentials invalid_token tunnel_not_found tunnel_send_error : AppError
  tunnel_response_error : AppError
  web_socket_error json_error hyper_error reqwest_error jwt_error io_error other : Text → AppError

-- The status and the body of an error.
unfoldable pub into_response : AppError → ℕ × Text
into_response AppError.invalid_credentials = (401, codes "Invalid credentials")
into_response AppError.invalid_token = (401, codes "Invalid token")
into_response AppError.tunnel_not_found = (404, codes "Tunnel not found")
into_response AppError.tunnel_send_error = (500, codes "Failed to send request to tunnel")
into_response AppError.tunnel_response_error = (500, codes "Failed to get response from tunnel")
into_response (AppError.web_socket_error e) = (500, codes "WebSocket error: " ++ e)
into_response (AppError.json_error e) = (400, codes "JSON error: " ++ e)
into_response (AppError.hyper_error e) = (500, codes "Hyper error: " ++ e)
into_response (AppError.reqwest_error e) = (500, codes "Reqwest error: " ++ e)
into_response (AppError.jwt_error e) = (401, codes "JWT error: " ++ e)
into_response (AppError.io_error e) = (500, codes "IO error: " ++ e)
into_response (AppError.other e) = (500, codes "Other error: " ++ e)

-- How the route ends.
pub data Outcome (A : Type 0) : Type 0 where
  ok : A → Outcome A
  err : AppError → Outcome A
  panic : Outcome A

-- What one call meets outside: the new uuid and channel, the encoding of its message, the sender
-- of the tunnel, and the response, for which it waits without a limit. Other tasks may change the
-- state at the two awaits.
pub record Trip (F32 F S W : Type 0) : Type 0 where
  pub request_id : Text
  pub resp_tx : W
  pub to_string : ControlMessage F32 → Option Text
  pub json_message : Text
  pub send : S → Text → AppState S W F → AppState S W F × Bool
  pub receive : AppState S W F → AppState S W F × Option HttpResponse

module _ (h : Http) where
  abbrev pub prepend : Text × Text → Option (List (Text × Text)) → Option (List (Text × Text))
  prepend p none = none
  prepend p (some ps) = some (p ∷ ps)

  -- `to_str().unwrap()` panics on a value that is no text: `none`.
  unfoldable pub all_pairs : List (Text × h.Value) → Option (List (Text × Text))
  all_pairs [] = some []
  all_pairs ((k, v) ∷ hs) =
      let rest = all_pairs hs in elim (h.to_str v) [ none ↦ none | some s ↦ prepend (k, s) rest ]

  -- The builder appends; a name or a value that is none makes it fail when the body is set.
  unfoldable pub append_headers : h.Headers → List (Text × Text) → Option h.Headers
  append_headers hs [] = some hs
  append_headers hs ((k, v) ∷ rest) = elim (h.header_name k) [
    | none ↦ none
    | some name ↦ elim (h.from_str v) [
      | none ↦ none
      | some value ↦ append_headers (h.append_header hs name value) rest
    ]
  ]

  abbrev pub with_headers : HttpResponse → Option h.Headers → Outcome (Response h)
  with_headers r none = err (AppError.other (codes "http error"))
  with_headers r (some hs) = ok (record { status = r.status; headers = hs; body = r.body })

  unfoldable pub build_response : HttpResponse → Outcome (Response h)
  unfolding append_headers
  build_response r =
      if leb 100 r.status && leb r.status 999
      then with_headers r (append_headers h.no_headers r.headers)
      else err (AppError.other (codes "http error"))

  module _ {F32 F S W : Type 0} (x : Trip F32 F S W) where
    abbrev pub received :
        AppState S W F × Option HttpResponse → AppState S W F × Outcome (Response h)
    received (s, some r) = (s, build_response r)
    received (s, none) = (s, err AppError.tunnel_response_error)

    abbrev pub after_send : AppState S W F × Bool → AppState S W F × Outcome (Response h)
    after_send (s, true) = received (x.receive s)
    after_send (s, false) = (s, err AppError.tunnel_send_error)

    abbrev pub send_message :
        S → Option Text → AppState S W F → AppState S W F × Outcome (Response h)
    send_message tx none s = (s, err (AppError.json_error x.json_message))
    send_message tx (some msg_str) s = after_send (x.send tx msg_str s)

    abbrev pub send_request :
        (method path : Text)
        → Bytes
        → S
        → Option (List (Text × Text))
        → AppState S W F
        → AppState S W F × Outcome (Response h)
    send_request method path body tx none s = (s, panic)
    send_request method path body tx (some headers) s =
        send_message tx
          (x.to_string (
            request x.request_id
              (record { method = method; path = path; headers = headers; body = body })))
          s

    abbrev pub await_response : AppState S W F → AppState S W F
    await_response s = record s { responses = insert x.request_id x.resp_tx s.responses }

    abbrev pub tunnel_to :
        (method path : Text)
        → h.Headers
        → Bytes
        → Option S
        → AppState S W F
        → AppState S W F × Outcome (Response h)
    tunnel_to method path headers body none s = (s, err AppError.tunnel_not_found)
    tunnel_to method path headers body (some tx) s =
        send_request method path body tx (all_pairs (h.iter headers)) (await_response s)

    unfoldable pub tunnel :
        (id method path : Text)
        → h.Headers
        → Bytes
        → AppState S W F
        → AppState S W F × Outcome (Response h)
    tunnel id method path headers body s = tunnel_to method path headers body (get id s.tunnels) s
