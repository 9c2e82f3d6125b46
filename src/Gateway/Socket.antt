-- ===== src/Gateway/Socket.antt =====
-- What a tunnel client brings about (rathole/src/main.rs: handle_socket and the clean-up task).
use rathole_with_proxy.Base.{
  ℕ, ◌≡◌, ◌≢◌, refl, ap, ◌∙◌, ◌⊎◌, inl, inr, arith, Bool, true, false, Option, none, some, List, [],
  ◌∷◌, ◌++◌, Text, text_eq, text_eqb_iff, HashMap, get, remove, ltb, Bool-cases, Option-cases,
  if◌then◌else◌, get-insert, get-remove, ==_refl, ◌==◌,
}
use rathole_with_proxy.Float.{Float}
use rathole_with_proxy.Hardware.{exhausted, handle_hardware_data}
use rathole_with_proxy.Health.{is_healthy, duration_since, stale_threshold}
use rathole_with_proxy.Message.{ControlMessage, HttpResponse, HardwareData}
use rathole_with_proxy.Gateway.{
  Gateway, Incoming, Event, on_message, update_health, deliver, handle_socket, on_first,
  on_first_parsed, finish, clean_up, clean_up_one,
}

remove_same : {V : Type 0} (k : Text) (m : HashMap Text V) → remove k (remove k m) ≡ remove k m
unfolding remove
remove_same k [] = refl
remove_same k ((j, v) ∷ m) = elim (Bool-cases (j == k)) [
  | inl same ↦ rw same (remove_same k m)
  | inr other ↦ rw (other, other) (ap (◌∷◌ (j, v)) (remove_same k m))
]

module _ {S W F : Type 0} where
  -- A second response for a request reaches nobody and changes nothing.
  pub deliver-deliver :
      (request_id : Text) (first second : HttpResponse) (g : Gateway S W F)
      → deliver request_id second (deliver request_id first g) ≡ deliver request_id first g
  unfolding deliver
  deliver-deliver id first second g = elim (Option-cases (get id g.app.responses)) [
    | inl q ↦
        rw (q, get-remove id id g.app.responses, ==_refl id, remove_same id g.app.responses) refl
    | inr (tx, q) ↦
        rw (q, get-remove id id g.app.responses, ==_refl id, remove_same id g.app.responses) refl
  ]

-- The first message registers with a token that the secret verifies.
abbrev pub Verified :
    {F : Type 0}
    → (Text → Text → Bool)
    → (Text → Option (ControlMessage F))
    → Incoming
    → Text
    → Type 0
Verified verify parse first secret =
    (t : Text) × (token : Text) × (target : Text) × (first ≡ Incoming.text t)
    × (parse t ≡ some (ControlMessage.register token target))
    × (verify secret token ≡ true)

module _ (f : Float) {S W : Type 0} where
  -- After a health update the tunnel is healthy for as long as the update is fresh, or not
  -- at all when the hardware is exhausted; its earlier status and its failures do not count.
  pub on_message-is_healthy :
      (id stamp : Text) (now later : ℕ) (d : HardwareData f.Carrier) (g : Gateway S W f.Carrier)
      → is_healthy
          (get id (on_message f id now (ControlMessage.health_update d stamp) g).app.health_data)
          later
        ≡ (if exhausted f d (f.tenths 850)
            then false
            else ltb (duration_since later now) stale_threshold)
  unfolding on_message update_health handle_hardware_data is_healthy
  on_message-is_healthy id stamp now later d g = elim (Bool-cases (exhausted f d (f.tenths 850))) [
    | inl e ↦ rw (get-insert id id _ g.app.health_data, ==_refl id, e) refl
    | inr e ↦ rw (get-insert id id _ g.app.health_data, ==_refl id, e) refl
  ]

  on_first-verify :
      (verify : Text → Text → Bool) (parse : Text → Option (ControlMessage f.Carrier)) (id : Text)
      (tx : S) (es : List (Event S W f.Carrier)) (stored : Bool) (msg : ControlMessage f.Carrier)
      (g : Gateway S W f.Carrier)
      → (on_first f verify parse id tx es stored msg g ≡ finish id g)
        ⊎ ((token : Text) × (target : Text) × (msg ≡ ControlMessage.register token target)
            × (verify g.app.jwt_secret token ≡ true))
  on_first-verify verify parse id tx es stored (ControlMessage.register token target) g =
      elim (Bool-cases (verify g.app.jwt_secret token)) [
        | inl v ↦ inr (token, target, refl, v)
        | inr v ↦ inl (rw v refl)
      ]
  on_first-verify verify parse id tx es stored (ControlMessage.request r http) g = inl refl
  on_first-verify verify parse id tx es stored (ControlMessage.response r http) g = inl refl
  on_first-verify verify parse id tx es stored (ControlMessage.health_update d t) g = inl refl

  pub handle_socket-verify :
      (verify : Text → Text → Bool) (parse : Text → Option (ControlMessage f.Carrier)) (id : Text)
      (tx : S) (first : Incoming) (es : List (Event S W f.Carrier)) (stored : Bool)
      (g : Gateway S W f.Carrier)
      → (((t : Text) × (first ≡ Incoming.text t) × (parse t ≡ none))
          × (handle_socket f verify parse id tx first es stored g ≡ g))
        ⊎ ((handle_socket f verify parse id tx first es stored g ≡ finish id g)
            ⊎ Verified verify parse first g.app.jwt_secret)
  unfolding handle_socket
  handle_socket-verify verify parse id tx (Incoming.text t) es stored g =
      elim (Option-cases (parse t)) [
        | inl q ↦ inl ((t, refl, q), ap (λ o. on_first_parsed f verify parse id tx es stored o g) q)
        | inr (msg, q) ↦
            let step = ap (λ o. on_first_parsed f verify parse id tx es stored o g) q in
            elim (on_first-verify verify parse id tx es stored msg g) [
              | inl same ↦ inr (inl (step ∙ same))
              | inr (token, target, m, v) ↦ inr (inr (t, token, target, refl, q ∙ ap some m, v))
            ]
      ]
  handle_socket-verify verify parse id tx Incoming.other_message es stored g = inr (inl refl)
  handle_socket-verify verify parse id tx Incoming.socket_error es stored g = inr (inl refl)
  handle_socket-verify verify parse id tx Incoming.closed es stored g = inr (inl refl)
  handle_socket-verify verify parse id tx Incoming.timed_out es stored g = inr (inl refl)

  finish-clean_up :
      (id : Text) (g h : Gateway S W f.Carrier)
      → g.cleanup ≡ []
      → h ≡ finish id g
      → (r : Gateway S W f.Carrier) × (clean_up true h ≡ some r)
        × (r.app.tunnels ≡ remove id g.app.tunnels)
  unfolding clean_up
  finish-clean_up id g h none_due q = (
    _,
    ap (clean_up true) q
        ∙ ap (λ l. clean_up_one true l (finish id g)) (ap (λ l. l ++ id ∷ []) none_due),
    refl,
  )

  -- A socket without a token that verifies takes away the tunnel of its id, whoever has registered
  -- it: if its first message can be read, no other clean-up is due and the store takes the status,
  -- then after its end and its clean-up the id has no tunnel, and every other id has the one that it
  -- had.
  pub clean_up-handle_socket :
      (verify : Text → Text → Bool) (parse : Text → Option (ControlMessage f.Carrier)) (id : Text)
      (tx : S) (first : Incoming) (es : List (Event S W f.Carrier)) (stored : Bool)
      (g : Gateway S W f.Carrier)
      → ¬ Verified verify parse first g.app.jwt_secret
      → ((t : Text) → first ≡ Incoming.text t → parse t ≢ none)
      → g.cleanup ≡ []
      → (r : Gateway S W f.Carrier) × (clean_up true
            (handle_socket f verify parse id tx first es stored g)
          ≡ some r)
        × (get id r.app.tunnels ≡ none)
        × ((k : Text) → k ≢ id → get k r.app.tunnels ≡ get k g.app.tunnels)
  clean_up-handle_socket verify parse id tx first es stored g forged readable none_due =
      let finished : handle_socket f verify parse id tx first es stored g ≡ finish id g =
        elim (handle_socket-verify verify parse id tx first es stored g) [
          | inl ((t, u, q), same) ↦ absurd (readable t u q)
          | inr (inl q) ↦ q
          | inr (inr v) ↦ absurd (forged v)
        ] in
      let (r, q, left) = finish-clean_up id g _ none_due finished in
      (
        r,
        q,
        ap (get id) left
            ∙ get-remove id id g.app.tunnels
            ∙ ap (λ b. if b then none else get id g.app.tunnels) (==_refl id),
        λ k other.
            ap (get k) left ∙ (ground (arith, get-remove id k g.app.tunnels, text_eqb_iff id k)),
      )
