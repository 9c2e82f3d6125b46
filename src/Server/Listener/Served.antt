-- ===== src/Server/Listener/Served.antt =====
-- The listener, the pool and the data channels of a TCP service together (rathole/src/server.rs:
-- tcp_listen_and_send, run_tcp_connection_pool, ControlChannelHandle::new).
use rathole_with_proxy.Base.{
  ℕ, zero, suc, ◌+◌, ◌≤◌, ◌≡◌, ◌≢◌, refl, sym, ap, ◌∙◌, Bool, true, false, Option, none, some, List,
  [], ◌∷◌, ◌++◌, map, filter, length, length-append, not, arith, Bool-cases, inl, inr,
}
use mathlib.Core.List.{append-nil, append_assoc}
use rathole_with_proxy.Protocol.{Codec}
use rathole_with_proxy.Protocol.Stream.{Conn}
use rathole_with_proxy.Server.{tcp_pool_size}
use rathole_with_proxy.Server.Pool.{run_tcp_connection_pool}
use rathole_with_proxy.Server.Pool.Laws.{zip, started, works, run_tcp_connection_pool-zip}
use rathole_with_proxy.Server.Run.{Backoff}
use rathole_with_proxy.Server.Listener.{
  Event, Listener, on_visitor, back_off, step, go_on, listen, tcp_listen_and_send,
}

module _ {V : Type 0} (b : Backoff) where
  -- As many data channels have been asked for as visitors have gone to the pool.
  abbrev Balanced : Listener V b.State → Type 0
  Balanced l = l.requests ≡ length l.visitors

  on_visitor-Balanced :
      (v : V) (n : ℕ) (l : Listener V b.State) → Balanced l → Balanced (on_visitor b v n l).0
  on_visitor-Balanced v zero l h = h
  on_visitor-Balanced v (suc n) l h = omega (arith, length-append l.visitors (v ∷ []))

  back_off-Balanced :
      (o : Option (ℕ × b.State)) (l : Listener V b.State) → Balanced l → Balanced (back_off b o l).0
  back_off-Balanced none l h = h
  back_off-Balanced (some d) l h = h

  step-Balanced : (e : Event V) (l : Listener V b.State) → Balanced l → Balanced (step b e l).0
  unfolding step
  step-Balanced (Event.visitor v) l h = on_visitor-Balanced v l.asks l h
  step-Balanced Event.accept_failed l h = back_off-Balanced (b.next_backoff l.backoff) l h
  step-Balanced Event.shutdown l h = h

  go_on-Balanced :
      (p : Listener V b.State × Bool) (rest : Listener V b.State → Listener V b.State)
      → (Balanced p.0 → Balanced (rest p.0))
      → Balanced p.0
      → Balanced (go_on b rest p)
  go_on-Balanced (l, true) rest f h = f h
  go_on-Balanced (l, false) rest f h = h

  listen-Balanced :
      (es : List (Event V)) (l : Listener V b.State) → Balanced l → Balanced (listen b es l)
  unfolding listen
  listen-Balanced [] l h = h
  listen-Balanced (e ∷ es) l h =
      go_on-Balanced (step b e l) (listen b es) (listen-Balanced es (step b e l).0)
        (step-Balanced e l h)

  tcp_listen_and_send-Balanced :
      (bound : Bool) (asks : ℕ) (initial : b.State) (es : List (Event V))
      → Balanced (tcp_listen_and_send b bound asks initial es)
  unfolding tcp_listen_and_send
  tcp_listen_and_send-Balanced false asks initial es = refl
  tcp_listen_and_send-Balanced true asks initial es = listen-Balanced es _ refl

length-map : {A B : Type 0} (f : A → B) (xs : List A) → length (map f xs) ≡ length xs
length-map f [] = refl
length-map f (x ∷ xs) = ap suc (length-map f xs)

module _ (x : Codec) where
  -- A data channel that does not take the command.
  abbrev pub fails : Conn → Bool
  fails c = not (works x c)

  length-works :
      (chs : List Conn) → length (filter (works x) chs) + length (filter fails chs) ≡ length chs
  length-works [] = refl
  length-works (c ∷ chs) = elim (Bool-cases (works x c)) [
    | inl w ↦ rw w (omega (arith, length-works chs))
    | inr w ↦ rw w (omega (arith, length-works chs))
  ]

  zip-visitors :
      {A B : Type 0} (xs : List A) (ys : List B)
      → length ys ≤ length xs
      → map (λ p. p.1) (zip x xs ys) ≡ ys
  zip-visitors [] [] h = refl
  zip-visitors [] (y ∷ ys) h = absurd (omega arith)
  zip-visitors (x ∷ xs) [] h = refl
  zip-visitors (x ∷ xs) (y ∷ ys) h = ap (◌∷◌ y) (zip-visitors xs ys (omega arith))

-- The visitors that come before the first shutdown.
unfoldable pub arrivals : {V : Type 0} → List (Event V) → List V
arrivals [] = []
arrivals (Event.visitor v ∷ es) = v ∷ arrivals es
arrivals (Event.accept_failed ∷ es) = arrivals es
arrivals (Event.shutdown ∷ es) = []

module _ {V : Type 0} (b : Backoff) (never : (s : b.State) → b.next_backoff s ≢ none) where
  -- What has gone to the pool at the end: what had before, and all arrivals.
  abbrev Takes : List (Event V) → Listener V b.State → Type 0
  Takes es l = (listen b es l).visitors ≡ l.visitors ++ arrivals es

  on_visitor-arrivals :
      (v : V) (n : ℕ) (es : List (Event V)) (l : Listener V b.State)
      → suc (length (arrivals es)) ≤ n
      → ((l' : Listener V b.State) → length (arrivals es) ≤ l'.asks → Takes es l')
      → (go_on b (listen b es) (on_visitor b v n l)).visitors ≡ l.visitors ++ v ∷ arrivals es
  on_visitor-arrivals v zero es l h rest = absurd (omega arith)
  on_visitor-arrivals v (suc n) es l h rest =
      rest (on_visitor b v (suc n) l).0 (omega arith)
      ∙ append_assoc l.visitors (v ∷ []) (arrivals es)

  back_off-arrivals :
      (o : Option (ℕ × b.State)) (es : List (Event V)) (l : Listener V b.State)
      → o ≢ none
      → ((l' : Listener V b.State)
          → l'.asks ≡ l.asks
          → l'.visitors ≡ l.visitors
          → (listen b es l').visitors ≡ l.visitors ++ arrivals es)
      → (go_on b (listen b es) (back_off b o l)).visitors ≡ l.visitors ++ arrivals es
  back_off-arrivals none es l h rest = absurd (h refl)
  back_off-arrivals (some (d, state)) es l h rest = rest (record l { backoff = state }) refl refl

  listen-arrivals :
      (es : List (Event V)) (l : Listener V b.State) → length (arrivals es) ≤ l.asks → Takes es l
  unfolding listen step arrivals
  listen-arrivals [] l h = sym (append-nil l.visitors)
  listen-arrivals (Event.visitor v ∷ es) l h =
      on_visitor-arrivals v l.asks es l h (listen-arrivals es)
  listen-arrivals (Event.accept_failed ∷ es) l h =
      back_off-arrivals (b.next_backoff l.backoff) es l (never l.backoff)
        (λ l' q r. listen-arrivals es l' (omega (arith, h, q)) ∙ ap (λ vs. vs ++ arrivals es) r)
  listen-arrivals (Event.shutdown ∷ es) l h = sym (append-nil l.visitors)

module _ (x : Codec) (b : Backoff) {V : Type 0} where
  -- If the address can be bound and the policy never gives up, every visitor that comes before the
  -- shutdown is forwarded over a data channel, in the order of arrival, each once and nobody else:
  -- as long as the control channel takes the requests of the listener and of the pool, the data
  -- channels that the start of the control channel and the listener have asked for come, and no
  -- more of them fail than the start has asked for.
  pub tcp_listen_and_send-visitors :
      (limit asks : ℕ) (initial : b.State) (es : List (Event V)) (chs : List Conn)
      → ((s : b.State) → b.next_backoff s ≢ none)
      → length (arrivals es) ≤ limit
      → length chs ≡ tcp_pool_size + (tcp_listen_and_send b true limit initial es).requests
      → length (filter (fails x) chs) ≤ tcp_pool_size
      → length chs ≤ asks
      → map
          (λ p. p.1)
          (run_tcp_connection_pool x asks
            (tcp_listen_and_send b true limit initial es).visitors
            chs).forwards
        ≡ arrivals es
  unfolding tcp_listen_and_send
  tcp_listen_and_send-visitors limit asks initial es chs never takes came few enough =
      let l = tcp_listen_and_send b true limit initial es in
      let l0 : Listener V b.State = record {
        visitors = [];
        requests = 0;
        asks = limit;
        backoff = initial;
      } in
      ap (map (λ p. p.1)) (run_tcp_connection_pool-zip x asks l.visitors chs enough)
      ∙ zip-visitors x (map (started x) (filter (works x) chs)) l.visitors (
          omega (
            arith,
            length-works x chs,
            length-map (started x) (filter (works x) chs),
            tcp_listen_and_send-Balanced b true limit initial es,
          ))
      ∙ listen-arrivals b never es l0 takes
