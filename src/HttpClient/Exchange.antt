-- ===== src/HttpClient/Exchange.antt =====
-- The client of rathole/src/bin/client.rs and the socket of rathole/src/main.rs together: what
-- becomes of the requests that wait.
use rathole_with_proxy.Base.{
  ℕ, zero, suc, ◌≤◌, ◌≡◌, ◌≢◌, refl, Bool, remove, Option-cases, inl, inr, if◌then◌else◌, sym, ◌∙◌,
  ap, subst, none, some, Option, List, [], ◌∷◌, ◌++◌, map, Text, text_eq, length, All, get,
  get-remove, ==_iff, ==_refl, ◌==◌, arith,
}
use mathlib.Core.List.{append-nil, append_assoc}
use rathole_with_proxy.Float.{Float}
use rathole_with_proxy.Gateway.{Gateway, Incoming, deliver, forward_loop, on_message, on_parsed}
use rathole_with_proxy.Gateway.{update_health}
use rathole_with_proxy.Gateway as Gateway
use rathole_with_proxy.Message.{HttpRequest, HttpResponse, ControlMessage}
use rathole_with_proxy.Proxy.Http.{Http}
use rathole_with_proxy.HttpClient.{
  End, Local, value, Event, dummy_hardware_data, serve, on_event, run, send_encoded,
}

-- The codec of JSON on the messages that the two exchange: a text for each, read back as it was.
pub record IsJson (f : Float) (to_string : ControlMessage f.Carrier → Option Text)
    (from_str : Text → Option (ControlMessage f.Carrier)) : Type 0 where
  pub encode : ControlMessage f.Carrier → Text
  pub written : (m : ControlMessage f.Carrier) → to_string m ≡ some (encode m)
  pub request_read :
      (id : Text) (http : HttpRequest)
      → from_str (encode (ControlMessage.request id http)) ≡ some (ControlMessage.request id http)
  pub response_read :
      (id : Text) (http : HttpResponse)
      → from_str (encode (ControlMessage.response id http)) ≡ some (ControlMessage.response id http)
  pub health_read :
      (timestamp : Text)
      → from_str (encode (ControlMessage.health_update (dummy_hardware_data f) timestamp))
        ≡ some (ControlMessage.health_update (dummy_hardware_data f) timestamp)

-- A request on its way: the waiter for its response, the local server that it meets, and what that
-- server answers.
pub record Job (h : Http) (W : Type 0) : Type 0 where
  pub request_id : Text
  pub http : HttpRequest
  pub waiter : W
  pub local : Local h
  pub answer : HttpResponse

-- What reaches the client: a request, or a tick of its interval.
pub data Item (h : Http) (W : Type 0) : Type 0 where
  job : Job h W → Item h W
  beat : (timestamp : Text) → Item h W

module _ {h : Http} {W : Type 0} where
  abbrev pub jobs : List (Item h W) → List (Job h W)
  jobs [] = []
  jobs (job j ∷ items) = j ∷ jobs items
  jobs (beat t ∷ items) = jobs items

  -- No two of the requests have one id.
  abbrev pub Fresh : List (Job h W) → Type 0
  Fresh [] = Unit
  Fresh (j ∷ js) = All (λ k. j.request_id ≢ k.request_id) js × Fresh js

module _ {h : Http} {S W F : Type 0} where
  -- The handler of each request waits for its response.
  abbrev pub Waits : Gateway S W F → List (Job h W) → Type 0
  Waits g js = All (λ j. get j.request_id g.app.responses ≡ some j.waiter) js

  -- No handler waits for a response any more.
  abbrev pub Settled : Gateway S W F → List (Job h W) → Type 0
  Settled g js = All (λ j. get j.request_id g.app.responses ≡ none) js

module _ {S W F : Type 0} where
  deliver-responses :
      (id : Text) (r : HttpResponse) (g : Gateway S W F)
      → (deliver id r g).app.responses ≡ remove id g.app.responses
  unfolding deliver
  deliver-responses id r g = elim (Option-cases (get id g.app.responses)) [
    | inl q ↦ rw q refl
    | inr (w, q) ↦ rw q refl
  ]

  deliver-delivered :
      (id : Text) (r : HttpResponse) (g : Gateway S W F) (w : W)
      → get id g.app.responses ≡ some w
      → (deliver id r g).delivered ≡ g.delivered ++ (w, r) ∷ []
  unfolding deliver
  deliver-delivered id r g w q = rw q refl

  -- A response that is delivered leaves the waiters of other requests.
  deliver-get :
      (id k : Text) (r : HttpResponse) (g : Gateway S W F)
      → get k (deliver id r g).app.responses ≡ (if id == k then none else get k g.app.responses)
  deliver-get id k r g = rw (deliver-responses id r g) (get-remove id k g.app.responses)

module _ {h : Http} {W : Type 0} where
  abbrev pub answers : List (Job h W) → List (W × HttpResponse)
  answers js = map (λ j. (j.waiter, j.answer)) js

module _ {h : Http} {S W F : Type 0} where
  Waits-same :
      (g b : Gateway S W F) (js : List (Job h W))
      → b.app.responses ≡ g.app.responses
      → Waits g js
      → Waits b js
  Waits-same g b [] same w = tt
  Waits-same g b (k ∷ js) same w =
      (ap (λ m. get k.request_id m) same ∙ w.0, Waits-same g b js same w.1)

  deliver-Waits :
      (id : Text) (r : HttpResponse) (g : Gateway S W F) (js : List (Job h W))
      → All (λ k. id ≢ k.request_id) js
      → Waits g js
      → Waits (deliver id r g) js
  deliver-Waits id r g [] fresh w = tt
  deliver-Waits id r g (k ∷ js) fresh w = (
    deliver-get id k.request_id r g ∙ ground (arith, ==_iff id k.request_id, fresh.0, w.0),
    deliver-Waits id r g js fresh.1 w.1,
  )

-- The socket of the tunnel `id` receives the texts at one time.
abbrev pub hear :
    {S W : Type 0} (f : Float)
    → (Text → Option (ControlMessage f.Carrier))
    → Text
    → ℕ
    → List Text
    → Gateway S W f.Carrier
    → Gateway S W f.Carrier
hear f from_str id now us g =
    forward_loop f from_str id (map (λ u. Gateway.Event.received (Incoming.text u) now) us) g

module _ (f : Float) {to_string : ControlMessage f.Carrier → Option Text}
    {from_str : Text → Option (ControlMessage f.Carrier)} (json : IsJson f to_string from_str) where
  send_message-sent :
      (otherwise : End) (m : ControlMessage f.Carrier) (sent : List Text) (n : ℕ)
      → send_encoded otherwise (to_string m) (record { sent = sent; writes = suc n })
        ≡ (record { sent = sent ++ json.encode m ∷ []; writes = n }, End.waiting)
  send_message-sent otherwise m sent n = rw json.written refl

module _ (h : Http) (f : Float) (valid_method : Text → Bool)
    (to_string : ControlMessage f.Carrier → Option Text)
    (from_str : Text → Option (ControlMessage f.Carrier)) (json : IsJson f to_string from_str)
    {W : Type 0} where
  -- The events of the client, and the texts that it sends for them.
  abbrev pub arrives : Item h W → Event h
  arrives (job j) = Event.text (json.encode (ControlMessage.request j.request_id j.http)) j.local
  arrives (beat t) = Event.tick t

  abbrev pub reply : Item h W → Text
  reply (job j) = json.encode (ControlMessage.response j.request_id j.answer)
  reply (beat t) = json.encode (ControlMessage.health_update (dummy_hardware_data f) t)

  abbrev pub Serves : Job h W → Type 0
  Serves j = serve h f valid_method j.local j.http ≡ value j.answer

  on_event-reply :
      (i : Item h W) (sent : List Text) (n : ℕ)
      → All Serves (jobs (i ∷ []))
      → on_event h f valid_method to_string from_str
          (arrives i)
          (record { sent = sent; writes = suc n })
        ≡ (record { sent = sent ++ reply i ∷ []; writes = n }, End.waiting)
  unfolding on_event
  on_event-reply (job j) sent n s =
      rw (json.request_read, s.0) (send_message-sent f json End.broke _ sent n)
  on_event-reply (beat t) sent n s = send_message-sent f json End.broke _ sent n

  run-replies :
      (items : List (Item h W)) (sent : List Text) (n : ℕ)
      → length items ≤ n
      → All Serves (jobs items)
      → (m : ℕ) × (run h f valid_method to_string from_str
            (map arrives items)
            (record { sent = sent; writes = n })
          ≡ (record { sent = sent ++ map reply items; writes = m }, End.waiting))
  unfolding run
  run-replies [] sent n l s = (n, rw append-nil refl)
  run-replies (job j ∷ items) sent zero l s = absurd (omega arith)
  run-replies (beat t ∷ items) sent zero l s = absurd (omega arith)
  run-replies (job j ∷ items) sent (suc n) l s =
      let (m, q) = run-replies items (sent ++ reply (job j) ∷ []) n (omega arith) s.1 in
      (
        m,
        rw (on_event-reply (job j) sent n (s.0, tt))
            (q ∙ ap (λ t. (record { sent = t; writes = m }, End.waiting)) (append_assoc sent _ _)),
      )
  run-replies (beat t ∷ items) sent (suc n) l s =
      let (m, q) = run-replies items (sent ++ reply (beat t) ∷ []) n (omega arith) s in
      (
        m,
        rw (on_event-reply (beat t) sent n tt)
            (q ∙ ap (λ t. (record { sent = t; writes = m }, End.waiting)) (append_assoc sent _ _)),
      )

  hear-job :
      (id : Text) (now : ℕ) (j : Job h W) (us : List Text) {S : Type 0} (g : Gateway S W f.Carrier)
      → hear f from_str id now (reply (job j) ∷ us) g
        ≡ hear f from_str id now us (deliver j.request_id j.answer g)
  unfolding forward_loop on_message
  hear-job id now j us g =
      ap (λ o. hear f from_str id now us (on_parsed f id now o g))
        (json.response_read j.request_id j.answer)

  -- A health update concerns no request.
  hear-beat :
      (id : Text) (now : ℕ) (t : Text) (us : List Text) {S : Type 0} (g : Gateway S W f.Carrier)
      → (b : Gateway S W f.Carrier) × (hear f from_str id now (reply (beat t) ∷ us) g
          ≡ hear f from_str id now us b)
        × (b.delivered ≡ g.delivered)
        × (b.app.responses ≡ g.app.responses)
  unfolding forward_loop on_message update_health
  hear-beat id now t us g = (
    _,
    ap (λ o. hear f from_str id now us (on_parsed f id now o g)) (json.health_read t),
    refl,
    refl,
  )

  -- What the socket of `id` makes of the client's texts.
  hear-get :
      (id : Text) (now : ℕ) (k : Text) (items : List (Item h W)) {S : Type 0}
      (g : Gateway S W f.Carrier)
      → get k g.app.responses ≡ none
      → get k (hear f from_str id now (map reply items) g).app.responses ≡ none
  unfolding forward_loop
  hear-get id now k [] g q = q
  hear-get id now k (job j ∷ items) g q = rw (hear-job id now j (map reply items) g) (
      hear-get id now k items (deliver j.request_id j.answer g)
        (deliver-get j.request_id k j.answer g ∙ ground (arith, q)))
  hear-get id now k (beat t ∷ items) g q =
      let (b, step, _, same) = hear-beat id now t (map reply items) g in
      rw step (hear-get id now k items b (ap (λ m. get k m) same ∙ q))

  hear-answers :
      (id : Text) (now : ℕ) (items : List (Item h W)) {S : Type 0} (g : Gateway S W f.Carrier)
      → Fresh (jobs items)
      → Waits g (jobs items)
      → ((hear f from_str id now (map reply items) g).delivered
          ≡ g.delivered ++ answers (jobs items))
        × Settled (hear f from_str id now (map reply items) g) (jobs items)
  unfolding forward_loop
  hear-answers id now [] g fresh w = (rw append-nil refl, tt)
  hear-answers id now (beat t ∷ items) g fresh w =
      let (b, step, kept, same) = hear-beat id now t (map reply items) g in
      let ih = hear-answers id now items b fresh (Waits-same g b (jobs items) same w) in
      subst (λ r. (r.delivered ≡ g.delivered ++ answers (jobs items)) × Settled r (jobs items))
        (sym step) (ih.0 ∙ ap (λ l. l ++ answers (jobs items)) kept, ih.1)
  hear-answers id now (job j ∷ items) g fresh w =
      let after = deliver j.request_id j.answer g in
      let ih =
        hear-answers id now items after fresh.1
          (deliver-Waits j.request_id j.answer g (jobs items) fresh.0 w.1) in
      subst
        (λ r. (r.delivered ≡ g.delivered ++ answers (j ∷ jobs items)) × Settled r (j ∷ jobs items))
        (sym (hear-job id now j (map reply items) g))
        (
          ih.0
              ∙ rw (deliver-delivered j.request_id j.answer g j.waiter w.0)
                  (append_assoc g.delivered ((j.waiter, j.answer) ∷ []) (answers (jobs items))),
          (
            hear-get id now j.request_id items after (
                deliver-get j.request_id j.request_id j.answer g
                ∙ ground (arith, ==_refl j.request_id)),
            ih.1,
          ),
        )

  -- Requests with distinct ids that reach the client in some order, health updates between them, are
  -- all answered while the client's socket takes its messages: once the server's socket has
  -- received what the client sent, each waiter has got the answer of its own request, in that
  -- order, and none waits any more. The local server answers each request, JSON gives the
  -- messages back, and nothing else changes the pending responses.
  pub run-answers :
      (id : Text) (now : ℕ) (items : List (Item h W)) (writes : ℕ) {S : Type 0}
      (g : Gateway S W f.Carrier)
      → length items ≤ writes
      → All Serves (jobs items)
      → Fresh (jobs items)
      → Waits g (jobs items)
      → let (l, e) =
          run h f valid_method to_string from_str
            (map arrives items)
            (record { sent = []; writes = writes }) in
        (e ≡ End.waiting)
        × ((hear f from_str id now l.sent g).delivered ≡ g.delivered ++ answers (jobs items))
        × Settled (hear f from_str id now l.sent g) (jobs items)
  run-answers id now items writes g enough serves fresh waits =
      let (m, q) = run-replies items [] writes enough serves in
      let (d, s) = hear-answers id now items g fresh waits in rw q (refl, d, s)
