-- ===== src/Relay.antt =====
-- The relay, an earlier public server without tokens and health (relay/src/main.rs, with the
-- messages of shared/src/lib.rs). `S` is the sender of a tunnel, `W` that of a pending response.
pub mod Fallback
pub mod Client
use rathole_with_proxy.Base.{
  ℕ, Bool, true, false, ◌&&◌, Option, none, some, List, [], ◌∷◌, ◌++◌, Text, text_eq, codes, Bytes,
  HashMap, get, insert, remove, leb, if◌then◌else◌,
}
use rathole_with_proxy.Proxy.Http.{Http, Response, Reply, ok, err, panic, internal_server_error}
use rathole_with_proxy.Proxy.Cookie.{split, header_text}
use rathole_with_proxy.Gateway.Tunnel.{all_pairs, append_headers}
use rathole_with_proxy.Gateway.Locks as Locks

-- `F` is the type of `f32`.
pub data ControlMessage (F : Type 0) : Type 0 where
  register : (api_key target_subdomain : Text) → ControlMessage F
  request :
      (request_id method path : Text)
      → (headers : List (Text × Text)) → (body : Bytes) → ControlMessage F
  response :
      (request_id : Text) (status : ℕ) (headers : List (Text × Text)) (body : Bytes)
      → ControlMessage F
  health : (cpu_usage : F) (latency_ms : ℕ) → ControlMessage F
  pong : ControlMessage F

pub record TunnelRegistry (S W : Type 0) : Type 0 where
  pub tunnels : HashMap Text S
  pub pending_requests : HashMap Text W

pub record Request (h : Http) : Type 0 where
  pub method : Text
  pub uri : Text
  pub headers : h.Headers
  pub body : Option Bytes

-- The registry, and the responses that have gone to the handlers that wait.
pub record Relay (h : Http) (S W : Type 0) : Type 0 where
  pub registry : TunnelRegistry S W
  pub delivered : List (W × Response h)

-- What the loop of handle_socket meets: a message for the tunnel, one of the socket (`none` is one
-- that is no text), an error or the end of the socket, or the work of other tasks.
pub data Event (h : Http) (S W F : Type 0) : Type 0 where
  outbound : (encoded sent : Bool) → Event h S W F
  inbound : Option Text → Event h S W F
  gone : Event h S W F
  meanwhile : (Relay h S W → Relay h S W) → Event h S W F

-- How the task of a socket stands.
pub data End : Type 0 where
  serving left panicked : End

module _ (h : Http) where
  abbrev pub with_headers : ℕ → Bytes → Option h.Headers → Option (Response h)
  with_headers status body none = none
  with_headers status body (some headers) =
      some (record { status = status; headers = headers; body = body })

  -- The builder and its `unwrap`.
  unfoldable pub build : ℕ → List (Text × Text) → Bytes → Option (Response h)
  unfolding append_headers
  build status headers body =
      if leb 100 status && leb status 999
      then with_headers status body (append_headers h h.no_headers headers)
      else none

  abbrev pub emptied : Request h → Request h
  emptied req = record req { body = some [] }

module _ (h : Http) {S W : Type 0} where
  abbrev pub hand_over : Option (Response h) → W → Relay h S W → Relay h S W × End
  hand_over none tx s = (s, End.panicked)
  hand_over (some r) tx s = (record s { delivered = s.delivered ++ (tx, r) ∷ [] }, End.serving)

  abbrev pub deliver_to :
      Option W → ℕ → List (Text × Text) → Bytes → Relay h S W → Relay h S W × End
  deliver_to none status headers body s = (s, End.serving)
  deliver_to (some tx) status headers body s = hand_over (build h status headers body) tx s

  abbrev pub remove_pending : Text → Relay h S W → Relay h S W
  remove_pending request_id s =
      let r = s.registry in
      record s { registry = record r { pending_requests = remove request_id r.pending_requests } }

  module _ {F : Type 0} (parse : Text → Option (ControlMessage F)) where
    abbrev pub on_message : Option (ControlMessage F) → Relay h S W → Relay h S W × End
    on_message (some (ControlMessage.response request_id status headers body)) s =
        deliver_to (get request_id s.registry.pending_requests) status headers body
          (remove_pending request_id s)
    on_message (some (ControlMessage.register k t)) s = (s, End.serving)
    on_message (some (ControlMessage.request i m p hs b)) s = (s, End.serving)
    on_message (some (ControlMessage.health c l)) s = (s, End.serving)
    on_message (some ControlMessage.pong) s = (s, End.serving)
    on_message none s = (s, End.serving)

    -- One turn of the loop. The end of the socket only disables its branch of the `select!`.
    unfoldable pub on_event : Event h S W F → Relay h S W → Relay h S W × End
    unfolding build
    on_event (Event.outbound false sent) s = (s, End.serving)
    on_event (Event.outbound true false) s = (s, End.left)
    on_event (Event.outbound true true) s = (s, End.serving)
    on_event (Event.inbound none) s = (s, End.serving)
    on_event (Event.inbound (some t)) s = on_message (parse t) s
    on_event Event.gone s = (s, End.serving)
    on_event (Event.meanwhile f) s = (f s, End.serving)

    abbrev pub disconnect : Text → Relay h S W → Relay h S W
    disconnect id s =
        let r = s.registry in record s { registry = record r { tunnels = remove id r.tunnels } }

    abbrev pub go_on :
        Text → Relay h S W × End → (Relay h S W → Relay h S W × End) → Relay h S W × End
    go_on id (s, End.serving) rest = rest s
    go_on id (s, End.left) rest = (disconnect id s, End.left)
    go_on id (s, End.panicked) rest = (s, End.panicked)

    unfoldable pub serve : Text → List (Event h S W F) → Relay h S W → Relay h S W × End
    unfolding on_event
    serve id [] s = (s, End.serving)
    serve id (e ∷ es) s = go_on id (on_event e s) (serve id es)

    unfoldable pub handle_socket : Text → S → List (Event h S W F) → Relay h S W → Relay h S W × End
    unfolding serve
    handle_socket id tx es s =
        let r = s.registry in
        serve id es (record s { registry = record r { tunnels = insert id tx r.tunnels } })

abbrev pub first : List Text → Text
first [] = []
first (p ∷ ps) = p

-- One request as its surroundings answer it: the new uuid and channel, the tunnel's channel, the
-- response (nobody sends a status code instead), and the fallback server. Other tasks may change
-- the state at the two awaits.
pub record Call (h : Http) (S W F : Type 0) : Type 0 where
  pub request_id : Text
  pub response_tx : W
  pub send : S → ControlMessage F → Relay h S W → Relay h S W × Bool
  pub receive : Relay h S W → Relay h S W × Option (Response h)
  pub backend : Request h → Option (Response h)

-- How forward_to_tunnel ends: with a response, with the request for the fallback, or by a panic.
pub data Forwarded (h : Http) : Type 0 where
  answered : Response h → Forwarded h
  returned : Request h → Forwarded h
  unwrapped : Forwarded h

module _ (h : Http) {S W F : Type 0} (c : Call h S W F) where
  abbrev pub after_receive :
      Request h → Relay h S W × Option (Response h) → Relay h S W × Forwarded h
  after_receive req (s, some r) = (s, Forwarded.answered r)
  after_receive req (s, none) =
      (remove_pending h c.request_id s, Forwarded.returned (emptied h req))

  abbrev pub after_send : Request h → Relay h S W × Bool → Relay h S W × Forwarded h
  after_send req (s, false) = (remove_pending h c.request_id s, Forwarded.returned (emptied h req))
  after_send req (s, true) = after_receive req (c.receive s)

  abbrev pub send_to :
      Request h → S → Bytes → Option (List (Text × Text)) → Relay h S W → Relay h S W × Forwarded h
  send_to req tx body none s = (s, Forwarded.unwrapped)
  send_to req tx body (some headers) s =
      after_send req
        (c.send tx (ControlMessage.request c.request_id req.method req.uri headers body) s)

  abbrev pub with_body : Request h → S → Option Bytes → Relay h S W → Relay h S W × Forwarded h
  with_body req tx none s = (s, Forwarded.returned (emptied h req))
  with_body req tx (some body) s = send_to req tx body (all_pairs h (h.iter req.headers)) s

  unfoldable pub forward_to_tunnel : Request h → S → Relay h S W → Relay h S W × Forwarded h
  unfolding all_pairs
  forward_to_tunnel req tx s =
      let r = s.registry in
      with_body req tx req.body (record s {
        registry = record r {
          pending_requests = insert c.request_id c.response_tx r.pending_requests;
        };
      })

  abbrev pub or_500 : Option (Response h) → Reply (Response h)
  or_500 none = err internal_server_error
  or_500 (some r) = ok r

  abbrev pub forward_to_fallback : Request h → Reply (Response h)
  forward_to_fallback req = or_500 (c.backend req)

  abbrev pub conclude : Relay h S W × Forwarded h → Relay h S W × Reply (Response h)
  conclude (s, Forwarded.answered r) = (s, ok r)
  conclude (s, Forwarded.returned req) = (s, forward_to_fallback req)
  conclude (s, Forwarded.unwrapped) = (s, panic)

  abbrev pub to_tunnel : Request h → Option S → Relay h S W → Relay h S W × Reply (Response h)
  to_tunnel req none s = (s, forward_to_fallback req)
  to_tunnel req (some tx) s = conclude (forward_to_tunnel req tx s)

  abbrev pub by_host : Request h → Option Text → Relay h S W → Relay h S W × Reply (Response h)
  by_host req none s = (s, forward_to_fallback req)
  by_host req (some host) s = to_tunnel req (get (first (split b'.' host)) s.registry.tunnels) s

  unfoldable pub proxy_handler : Request h → Relay h S W → Relay h S W × Reply (Response h)
  unfolding forward_to_tunnel split
  proxy_handler req s = by_host req (header_text h (h.get_header req.headers (codes "host"))) s

-- The tasks as to the mutex of the table of tunnels, which is a lock that all take as writers. A
-- request holds it while its tunnel answers: the guard of the scrutinee lives as long as the body of
-- the `if let`. The task of a socket takes it to register, and again when it has left its loop.
abbrev pub request_ops : Text → List Locks.Op
request_ops request_id =
    Locks.Op.ask Locks.Want.write
    ∷ Locks.Op.obtain Locks.Want.write
    ∷ Locks.Op.work
    ∷ Locks.Op.work
    ∷ Locks.await_tunnel request_id

abbrev pub socket_ops : List Locks.Op
socket_ops =
    Locks.locked Locks.Want.write (Locks.Op.work ∷ [])
    ++ Locks.Op.work ∷ Locks.locked Locks.Want.write (Locks.Op.work ∷ [])
