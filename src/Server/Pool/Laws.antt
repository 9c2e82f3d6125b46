-- ===== src/Server/Pool/Laws.antt =====
-- What the tasks of a control channel do (rathole/src/server.rs).
use rathole_with_proxy.Base.{
  ℕ, zero, suc, ◌+◌, ◌<◌, ◌≤◌, ◌⊎◌, inl, inr, ◌≡◌, refl, sym, ap, Bool, true, false, List, [], ◌∷◌,
  map, length, filter, Bytes, arith, ltb, not,
}
use rathole_with_proxy.Protocol.{Codec, DataChannelCmd}
use rathole_with_proxy.Protocol.Stream.{Error, Conn, ok, err, ◌>>=◌, write_all, flush}
use rathole_with_proxy.Server.Pool.{write_and_flush, run_tcp_connection_pool}

module _ (x : Codec) where
  -- The command that starts a data channel.
  abbrev pub start : Bytes
  start = x.data_cmd.serialize DataChannelCmd.start_forward_tcp

  -- A data channel takes a command and its flush.
  abbrev pub works : Conn → Bool
  works c = not (ltb c.writes 2)

  -- The data channel after the command.
  abbrev pub started : Conn → Conn
  started c = (write_and_flush start c).0

  abbrev no_visitor : {B : Type 0} → List B
  no_visitor = []

  abbrev pub zip : {A B : Type 0} → List A → List B → List (A × B)
  zip [] ys = []
  zip (a ∷ xs) [] = []
  zip (a ∷ xs) (b ∷ ys) = (a, b) ∷ zip xs ys

  zip_none : {A B : Type 0} (xs : List A) → zip xs (no_visitor {B = B}) ≡ []
  zip_none [] = refl
  zip_none (a ∷ xs) = refl

  abbrev Starts : Conn → Type 0
  Starts c =
      ((works c ≡ true) × (write_and_flush start c ≡ (started c, ok tt)))
      ⊎ ((works c ≡ false) × (d : Conn) × (e : Error) × (write_and_flush start c ≡ (d, err e)))

  starts : (i o : Bytes) (n : ℕ) → Starts (record { incoming = i; outgoing = o; writes = n })
  unfolding write_and_flush ◌>>=◌ write_all flush
  starts i o zero = inr (refl, _, _, refl)
  starts i o (suc zero) = inr (refl, _, _, refl)
  starts i o (suc (suc n)) = inl (ground arith, refl)

  write_and_flush-Starts : (c : Conn) → Starts c
  write_and_flush-Starts c = starts c.incoming c.outgoing c.writes

  -- While the control channel takes requests, the visitors get, in their order, the data channels
  -- that take the command, each started and none twice; a channel that is broken is passed over.
  pub run_tcp_connection_pool-zip :
      {V : Type 0} (asks : ℕ) (vs : List V) (chs : List Conn)
      → length chs ≤ asks
      → (run_tcp_connection_pool x asks vs chs).forwards ≡ zip (map started (filter works chs)) vs
  unfolding run_tcp_connection_pool
  run_tcp_connection_pool-zip asks [] chs h = sym (zip_none (map started (filter works chs)))
  run_tcp_connection_pool-zip asks (v ∷ vs) [] h = refl
  run_tcp_connection_pool-zip zero (v ∷ vs) (ch ∷ chs) h = absurd (omega arith)
  run_tcp_connection_pool-zip (suc n) (v ∷ vs) (ch ∷ chs) h = elim (write_and_flush-Starts ch) [
    | inl (w, q) ↦
        rw (q, w)
          (ap (◌∷◌ (started ch, v)) (run_tcp_connection_pool-zip (suc n) vs chs (omega arith)))
    | inr (w, d, e, q) ↦ rw (q, w) (run_tcp_connection_pool-zip n (v ∷ vs) chs (omega arith))
  ]

  -- While the control channel takes requests, and if fewer data channels work than visitors wait,
  -- every data channel that came is in use or has been asked for again.
  pub run_tcp_connection_pool-requests :
      {V : Type 0} (asks : ℕ) (vs : List V) (chs : List Conn)
      → length chs ≤ asks
      → length (filter works chs) < length vs
      → (run_tcp_connection_pool x asks vs chs).requests
          + length (run_tcp_connection_pool x asks vs chs).forwards
        ≡ length chs
  unfolding run_tcp_connection_pool
  run_tcp_connection_pool-requests asks [] chs l h = omega arith
  run_tcp_connection_pool-requests asks (v ∷ vs) [] l h = omega arith
  run_tcp_connection_pool-requests zero (v ∷ vs) (ch ∷ chs) l h = absurd (omega arith)
  run_tcp_connection_pool-requests (suc n) (v ∷ vs) (ch ∷ chs) l h =
      elim (write_and_flush-Starts ch) [
        | inl (w, q) ↦ rw q (
            omega
              (arith, run_tcp_connection_pool-requests (suc n) vs chs (omega arith) (ground arith)))
        | inr (w, d, e, q) ↦ rw q (
            omega
              (arith, run_tcp_connection_pool-requests n (v ∷ vs) chs (omega arith) (ground arith)))
      ]
