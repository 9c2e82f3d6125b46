-- ===== src/Proxy/Forward.antt =====
-- The two ways to forward a request (rathole/src/proxy.rs: forward_via_tunnel, forward_to_cloud,
-- headers_to_map).
pub mod Pending
use rathole_with_proxy.Base.{
  ℕ, Bool, true, false, ◌&&◌, Option, none, some, List, [], ◌∷◌, ◌++◌, Text, text_eq, codes, Bytes,
  insert, remove, leb, eqb, if◌then◌else◌,
}
use rathole_with_proxy.Float.{Float}
use rathole_with_proxy.Health.{mark_tunnel_success, mark_tunnel_failure}
use rathole_with_proxy.Message.{HttpRequest, HttpResponse, ControlMessage, request}
use rathole_with_proxy.Proxy.Http.{
  Http, Request, Response, Reply, ok, err, panic, ◌>>=◌, or_err, unwrap, bad_request,
  internal_server_error, bad_gateway, gateway_timeout,
}
use rathole_with_proxy.Proxy.State.{
  AppState, Answer, answered, dropped, timed_out, CloudAnswer, responded, failed, late, Exchange,
}

module _ (h : Http) where
  -- Header values that are no text are left out.
  unfoldable pub to_pairs : List (Text × h.Value) → List (Text × Text)
  to_pairs [] = []
  to_pairs ((k, v) ∷ hs) =
      let rest = to_pairs hs in elim (h.to_str v) [ some s ↦ (k, s) ∷ rest | none ↦ rest ]

  unfoldable pub headers_to_map : h.Headers → List (Text × Text)
  unfolding to_pairs
  headers_to_map headers = to_pairs (h.iter headers)

  abbrev pub path_or_root : Option Text → Text
  path_or_root none = codes "/"
  path_or_root (some pq) = pq

  abbrev pub http_request : Request h → Bytes → HttpRequest
  http_request req bytes = record {
    method = req.method;
    path = path_or_root req.path_and_query;
    headers = headers_to_map req.headers;
    body = bytes;
  }

  -- The loop that copies the headers of a response.
  unfoldable pub copy_headers : h.Headers → List (Text × Text) → Reply h.Headers
  copy_headers hs [] = ok hs
  copy_headers hs ((k, v) ∷ rest) = do
    name ← or_err (h.header_name k) internal_server_error
    value ← or_err (h.from_str v) internal_server_error
    copy_headers (h.insert_header hs name value) rest

  -- The builder takes a status from 100 to 999. With any other it has no headers to unwrap.
  unfoldable pub build_response : HttpResponse → Reply (Response h)
  unfolding copy_headers
  build_response r =
      if leb 100 r.status && leb r.status 999
      then (do
        hs ← copy_headers h.no_headers r.headers
        ok (record { status = r.status; headers = hs; body = r.body }))
      else panic

  -- One more character before a text whose trailing `/` are gone.
  abbrev pub keep_unless_slash : ℕ → Text → Text
  keep_unless_slash c [] = if eqb c b'/' then [] else c ∷ []
  keep_unless_slash c (d ∷ ds) = c ∷ d ∷ ds

  -- `trim_end_matches('/')`
  unfoldable pub trim_end_slashes : Text → Text
  trim_end_slashes [] = []
  trim_end_slashes (c ∷ cs) = keep_unless_slash c (trim_end_slashes cs)

  abbrev pub with_cookie : Bool → Response h → Reply (Response h)
  with_cookie true resp = ok resp
  with_cookie false resp = do
    v ← unwrap (h.from_str (codes "backend=cloud; Path=/"))
    ok (record resp { headers = h.insert_header resp.headers (codes "set-cookie") v })

  abbrev pub from_cloud : Bool → CloudAnswer h → Reply (Response h)
  from_cloud is_sticky (responded status headers body) = do
    bytes ← or_err body internal_server_error
    with_cookie is_sticky (record { status = status; headers = headers; body = bytes })
  from_cloud is_sticky failed = err bad_gateway
  from_cloud is_sticky late = err gateway_timeout

  -- `cloud` is the shared HTTP client under the timeout: method, target, headers and body.
  unfoldable pub forward_to_cloud :
      (Text → h.Uri → h.Headers → Bytes → CloudAnswer h)
      → Text
      → Request h
      → Bool
      → Reply (Response h)
  unfolding trim_end_slashes
  forward_to_cloud cloud backend req is_sticky = do
    bytes ← or_err req.body bad_request
    let target = trim_end_slashes backend ++ path_or_root req.path_and_query
    uri ← or_err (h.parse_uri target) bad_request
    from_cloud is_sticky (cloud req.method uri req.headers bytes)

  module _ (f : Float) {F32 S W : Type 0} where
    -- A failure on the tunnel: the response is no longer awaited, and the tunnel gets a mark.
    unfoldable pub give_up :
        Exchange f F32 S W → Text → AppState S W f.Carrier → AppState S W f.Carrier
    give_up x id s = record s {
      responses = remove x.request_id s.responses;
      health_data = mark_tunnel_failure f s.health_data id x.reads;
    }

    unfoldable pub conclude :
        Exchange f F32 S W
        → Text
        → AppState S W f.Carrier × Answer
        → AppState S W f.Carrier × Reply (Response h)
    unfolding give_up
    conclude x id (s, answered r) = (
      record s { health_data = mark_tunnel_success f s.health_data id (some x.latency_ms) x.reads },
      build_response r,
    )
    conclude x id (s, dropped) = (give_up x id s, err bad_gateway)
    conclude x id (s, timed_out) = (give_up x id s, err gateway_timeout)

    unfoldable pub after_send :
        Exchange f F32 S W
        → Text
        → AppState S W f.Carrier × Bool
        → AppState S W f.Carrier × Reply (Response h)
    unfolding conclude
    after_send x id (s, true) = conclude x id (x.wait s)
    after_send x id (s, false) = (give_up x id s, err bad_gateway)

    unfoldable pub forward_via_tunnel :
        Exchange f F32 S W
        → Text
        → Request h
        → S
        → AppState S W f.Carrier
        → AppState S W f.Carrier × Reply (Response h)
    unfolding after_send
    forward_via_tunnel x id req tunnel_tx s =
        let waiting = record s { responses = insert x.request_id x.resp_tx s.responses } in
        elim req.body [
          | none ↦ (waiting, err bad_request)
          | some bytes ↦ elim (x.to_string (request x.request_id (http_request req bytes))) [
            | none ↦ (waiting, err internal_server_error)
            | some msg_str ↦ after_send x id (x.send tunnel_tx msg_str waiting)
          ]
        ]
