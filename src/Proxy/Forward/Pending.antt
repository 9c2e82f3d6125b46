-- ===== src/Proxy/Forward/Pending.antt =====
-- What forward_via_tunnel leaves behind: the pending response and the mark on the tunnel
-- (rathole/src/proxy.rs).
use rathole_with_proxy.Base.{
  ℕ, List, [], ◌∷◌, ◌≡◌, ◌⊎◌, inl, inr, Bool, true, false, none, Text, text_eq, insert, get,
  get-remove, ==_refl, arith, Option-cases,
}
use rathole_with_proxy.Float.{Float}
use rathole_with_proxy.Message.{HttpResponse, request}
use rathole_with_proxy.Proxy.Http.{
  Http, Request, err, internal_server_error, bad_gateway, gateway_timeout,
}
use rathole_with_proxy.Proxy.State.{AppState, Answer, answered, dropped, timed_out, Exchange}
use rathole_with_proxy.Proxy.Forward.{
  http_request, copy_headers, build_response, give_up, conclude, after_send, forward_via_tunnel,
}

module _ (h : Http) where
  copy_headers-err :
      (hs : h.Headers) (l : List (Text × Text)) (e : ℕ)
      → copy_headers h hs l ≡ err e
      → e ≡ internal_server_error
  unfolding copy_headers
  copy_headers-err hs [] e q = cc
  copy_headers-err hs ((k, v) ∷ rest) e q = elim (Option-cases (h.header_name k)) [
    | inl n ↦ ground arith
    | inr (name, n) ↦ elim (Option-cases (h.from_str v)) [
      | inl w ↦ ground arith
      | inr (value, w) ↦ copy_headers-err (h.insert_header hs name value) rest e (ground arith)
    ]
  ]

  build_response-err :
      (r : HttpResponse) (e : ℕ) → build_response h r ≡ err e → e ≡ internal_server_error
  unfolding build_response
  build_response-err r e q = ground (arith, copy_headers-err h.no_headers r.headers e)

module _ (h : Http) (f : Float) {F32 S W : Type 0} (x : Exchange f F32 S W) (id : Text) where
  give_up-pending :
      (s : AppState S W f.Carrier) → get x.request_id (give_up h f x id s).responses ≡ none
  unfolding give_up
  give_up-pending s = rw (get-remove, ==_refl x.request_id)

  conclude-pending :
      (p : AppState S W f.Carrier × Answer) (t : AppState S W f.Carrier) (e : ℕ)
      → conclude h f x id p ≡ (t, err e)
      → (e ≡ bad_gateway) ⊎ (e ≡ gateway_timeout)
      → get x.request_id t.responses ≡ none
  unfolding conclude
  conclude-pending (s, answered r) t e q c = ground (arith, build_response-err h r e)
  conclude-pending (s, dropped) t e q c = ground (arith, give_up-pending s)
  conclude-pending (s, timed_out) t e q c = ground (arith, give_up-pending s)

  after_send-pending :
      (p : AppState S W f.Carrier × Bool) (t : AppState S W f.Carrier) (e : ℕ)
      → after_send h f x id p ≡ (t, err e)
      → (e ≡ bad_gateway) ⊎ (e ≡ gateway_timeout)
      → get x.request_id t.responses ≡ none
  unfolding after_send
  after_send-pending (s, true) t e q c = conclude-pending (x.wait s) t e q c
  after_send-pending (s, false) t e q c = ground (arith, give_up-pending s)

  module _ (req : Request h) (tunnel_tx : S) (s : AppState S W f.Carrier) where
    abbrev waiting : AppState S W f.Carrier
    waiting = record s { responses = insert x.request_id x.resp_tx s.responses }

    -- After Bad Gateway and Gateway Timeout the request awaits no response any more, whatever other
    -- tasks did to the state while it was sent and awaited.
    pub forward_via_tunnel-pending :
        (t : AppState S W f.Carrier) (e : ℕ)
        → forward_via_tunnel h f x id req tunnel_tx s ≡ (t, err e)
        → (e ≡ bad_gateway) ⊎ (e ≡ gateway_timeout)
        → get x.request_id t.responses ≡ none
    unfolding forward_via_tunnel
    forward_via_tunnel-pending t e q c = elim (Option-cases req.body) [
      | inl n ↦ ground arith
      | inr (b, n) ↦
          elim (Option-cases (x.to_string (request x.request_id (http_request h req b)))) [
            | inl m ↦ ground arith
            | inr (msg, m) ↦ after_send-pending (x.send tunnel_tx msg waiting) t e (ground arith) c
          ]
    ]
