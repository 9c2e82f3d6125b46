-- ===== src/Gateway/Tunnel/Leak.antt =====
-- What the route leaves behind when it fails before the tunnel answers (rathole/src/main.rs:
-- tunnel).
use rathole_with_proxy.Base.{
  ◌≡◌, refl, ◌∙◌, ◌&&◌, leb, Bool-cases, Bool, true, false, Option, none, some, Text, text_eq,
  Bytes, List, get, get-insert, ==_refl, inl, inr,
}
use rathole_with_proxy.Message.{HttpResponse}
use rathole_with_proxy.Proxy.Http.{Http, Response}
use rathole_with_proxy.Proxy.State.{AppState}
use rathole_with_proxy.Gateway.Tunnel.{
  with_headers, append_headers, AppError, Outcome, ok, err, panic, Trip, all_pairs, tunnel,
  tunnel_to, send_request, send_message, after_send, received, await_response, build_response,
}

module _ (h : Http) {F32 F S W : Type 0} (x : Trip F32 F S W) where
  -- Nobody answers a request before it is sent.
  abbrev pub SendKeeps : Type 0
  SendKeeps =
      (tx : S) (m : Text) (s : AppState S W F)
      → get x.request_id (x.send tx m s).0.responses ≡ get x.request_id s.responses

  -- The outcomes before the tunnel answers.
  abbrev pub Unanswered : Outcome (Response h) → Type 0
  Unanswered (ok r) = ⊥
  Unanswered (err AppError.tunnel_send_error) = Unit
  Unanswered (err (AppError.json_error e)) = Unit
  Unanswered (err _) = ⊥
  Unanswered panic = Unit

  with_headers-answered :
      (r : HttpResponse) (o : Option h.Headers) → Unanswered (with_headers h r o) → ⊥
  with_headers-answered r none u = u
  with_headers-answered r (some hs) u = u

  build_response-answered : (r : HttpResponse) → Unanswered (build_response h r) → ⊥
  unfolding build_response
  build_response-answered r u = elim (Bool-cases (leb 100 r.status && leb r.status 999)) [
    | inl fine ↦ with_headers-answered r (append_headers h h.no_headers r.headers) (rw fine at u)
    | inr bad ↦ rw bad at u
  ]

  module _ (keeps : SendKeeps) where
    received-leak : (p : AppState S W F × Option HttpResponse) → Unanswered (received h x p).1 → ⊥
    received-leak (s, some r) u = build_response-answered r u
    received-leak (s, none) u = u

    after_send-leak :
        (p : AppState S W F × Bool)
        → get x.request_id p.0.responses ≡ some x.resp_tx
        → Unanswered (after_send h x p).1
        → get x.request_id (after_send h x p).0.responses ≡ some x.resp_tx
    after_send-leak (s, true) w u = absurd (received-leak (x.receive s) u)
    after_send-leak (s, false) w u = w

    send_message-leak :
        (tx : S) (o : Option Text) (s : AppState S W F)
        → get x.request_id s.responses ≡ some x.resp_tx
        → Unanswered (send_message h x tx o s).1
        → get x.request_id (send_message h x tx o s).0.responses ≡ some x.resp_tx
    send_message-leak tx none s w u = w
    send_message-leak tx (some m) s w u = after_send-leak (x.send tx m s) (keeps tx m s ∙ w) u

    tunnel_to-leak :
        (method path : Text) (headers : h.Headers) (body : Bytes) (o : Option S)
        (s : AppState S W F)
        → Unanswered (tunnel_to h x method path headers body o s).1
        → get x.request_id (tunnel_to h x method path headers body o s).0.responses ≡ some x.resp_tx
    tunnel_to-leak method path headers body none s u = absurd u
    tunnel_to-leak method path headers body (some tx) s u =
        pairs-leak (all_pairs h (h.iter headers)) u
      where
        waits : get x.request_id (await_response h x s).responses ≡ some x.resp_tx
        waits =
            rw (get-insert x.request_id x.request_id x.resp_tx s.responses, ==_refl x.request_id)
              refl

        pairs-leak :
            (l : Option (List (Text × Text)))
            → Unanswered (send_request h x method path body tx l (await_response h x s)).1
            → get x.request_id
                (send_request h x method path body tx l (await_response h x s)).0.responses
              ≡ some x.resp_tx
        pairs-leak none v = waits
        pairs-leak (some l) v = send_message-leak tx _ (await_response h x s) waits v

  -- A request of the route that fails before the tunnel answers, by a header that is no text, by its
  -- encoding or by the sending, still has its pending response registered when the call ends, if no
  -- other task takes it during the sending.
  pub tunnel-leak :
      SendKeeps
      → (id method path : Text) (headers : h.Headers) (body : Bytes) (s : AppState S W F)
      → Unanswered (tunnel h x id method path headers body s).1
      → get x.request_id (tunnel h x id method path headers body s).0.responses ≡ some x.resp_tx
  unfolding tunnel
  tunnel-leak keeps id method path headers body s u =
      tunnel_to-leak keeps method path headers body (get id s.tunnels) s u
