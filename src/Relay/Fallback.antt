-- ===== src/Relay/Fallback.antt =====
-- What a failing tunnel means for a request, and a leaving client for its id (relay/src/main.rs:
-- proxy_handler, forward_to_tunnel, handle_socket).
use rathole_with_proxy.Base.{
  ◌≡◌, ◌⊎◌, inl, inr, refl, ap, Bool, true, false, Option, none, some, List, [], ◌∷◌, Text, text_eq,
  codes, Bytes, get, get-insert, get-remove, ==_refl, Option-cases,
}
use rathole_with_proxy.Proxy.Http.{Http, Response, Reply, ok, panic}
use rathole_with_proxy.Proxy.Cookie.{split, header_text}
use rathole_with_proxy.Gateway.Tunnel.{all_pairs}
use rathole_with_proxy.Relay.{
  Relay, Request, Call, Event, End, ControlMessage, Forwarded, emptied, first, forward_to_tunnel,
  forward_to_fallback, send_to, with_body, after_send, after_receive, conclude, proxy_handler,
  serve, on_event, go_on,
}

module _ (h : Http) {S W F : Type 0} (c : Call h S W F) where
  -- A response of the tunnel, a request for the fallback without its body, or a panic.
  abbrev pub Ends : Request h → Forwarded h → Type 0
  Ends req (Forwarded.answered r) = (s : Relay h S W) × ((c.receive s).1 ≡ some r)
  Ends req (Forwarded.returned req') = req' ≡ emptied h req
  Ends req Forwarded.unwrapped = all_pairs h (h.iter req.headers) ≡ none

  after_receive-Ends :
      (req : Request h) (s : Relay h S W) → Ends req (after_receive h c req (c.receive s)).1
  after_receive-Ends req s = elim (Option-cases (c.receive s).1) [
    | inl q ↦ rw q refl
    | inr (r, q) ↦ rw q (s, q)
  ]

  after_send-Ends : (req : Request h) (p : Relay h S W × Bool) → Ends req (after_send h c req p).1
  after_send-Ends req (s, true) = after_receive-Ends req s
  after_send-Ends req (s, false) = refl

  send_to-Ends :
      (req : Request h) (tx : S) (body : Bytes) (headers : Option (List (Text × Text)))
      (s : Relay h S W)
      → all_pairs h (h.iter req.headers) ≡ headers
      → Ends req (send_to h c req tx body headers s).1
  send_to-Ends req tx body none s q = q
  send_to-Ends req tx body (some headers) s q = after_send-Ends req _

  with_body-Ends :
      (req : Request h) (tx : S) (body : Option Bytes) (s : Relay h S W)
      → Ends req (with_body h c req tx body s).1
  with_body-Ends req tx none s = refl
  with_body-Ends req tx (some body) s =
      send_to-Ends req tx body (all_pairs h (h.iter req.headers)) s refl

  -- Where the answer to a request with a tunnel can come from.
  abbrev pub Answers : Request h → Reply (Response h) → Type 0
  Answers req reply =
      ((r : Response h) × (s : Relay h S W) × ((c.receive s).1 ≡ some r) × (reply ≡ ok r))
      ⊎ ((reply ≡ forward_to_fallback h c (emptied h req))
          ⊎ ((all_pairs h (h.iter req.headers) ≡ none) × (reply ≡ panic)))

  conclude-Answers :
      (req : Request h) (p : Relay h S W × Forwarded h)
      → Ends req p.1
      → Answers req (conclude h c p).1
  conclude-Answers req (s, Forwarded.answered r) (t, q) = inl (r, t, q, refl)
  conclude-Answers req (s, Forwarded.returned req') q = inr (inl (ap (forward_to_fallback h c) q))
  conclude-Answers req (s, Forwarded.unwrapped) q = inr (inr (q, refl))

  -- A request for a registered tunnel is answered by the tunnel, or by the fallback server, which
  -- then gets an empty body whatever body the request had, or it panics on a header that is no
  -- text.
  pub proxy_handler-Answers :
      (req : Request h) (host : Text) (tx : S) (s : Relay h S W)
      → header_text h (h.get_header req.headers (codes "host")) ≡ some host
      → get (first (split b'.' host)) s.registry.tunnels ≡ some tx
      → Answers req (proxy_handler h c req s).1
  unfolding proxy_handler forward_to_tunnel
  proxy_handler-Answers req host tx s q e =
      rw (q, e)
        (conclude-Answers req (forward_to_tunnel h c req tx s) (with_body-Ends req tx req.body _))

  -- The pending entry of a request whose body cannot be read stays.
  pub forward_to_tunnel-leak :
      (req : Request h) (tx : S) (s : Relay h S W)
      → req.body ≡ none
      → get c.request_id (forward_to_tunnel h c req tx s).0.registry.pending_requests
        ≡ some c.response_tx
  unfolding forward_to_tunnel
  forward_to_tunnel-leak req tx s q =
      rw
        (
          q,
          get-insert c.request_id c.request_id c.response_tx s.registry.pending_requests,
          ==_refl c.request_id,
        )
        refl

module _ (h : Http) {S W F : Type 0} (parse : Text → Option (ControlMessage F)) where
  go_on-left :
      (id : Text) (rest : Relay h S W → Relay h S W × End) (p : Relay h S W × End)
      → ((t : Relay h S W) → (rest t).1 ≡ End.left → get id (rest t).0.registry.tunnels ≡ none)
      → (go_on h parse id p rest).1 ≡ End.left
      → get id (go_on h parse id p rest).0.registry.tunnels ≡ none
  go_on-left id rest (s, End.serving) f q = f s q
  go_on-left id rest (s, End.left) f q = rw (get-remove id id s.registry.tunnels, ==_refl id) refl
  go_on-left id rest (s, End.panicked) f q = absurd cc

  -- When the task of a socket leaves its loop, no tunnel has its id, even if another client has
  -- registered the id in the meantime.
  pub serve-left :
      (id : Text) (es : List (Event h S W F)) (s : Relay h S W)
      → (serve h parse id es s).1 ≡ End.left
      → get id (serve h parse id es s).0.registry.tunnels ≡ none
  unfolding serve
  serve-left id [] s q = absurd cc
  serve-left id (e ∷ es) s q =
      go_on-left id (serve h parse id es) (on_event h parse e s) (serve-left id es) q
