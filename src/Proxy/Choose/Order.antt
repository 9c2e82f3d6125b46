-- ===== src/Proxy/Choose/Order.antt =====
-- The comparison of candidates is a total preorder where no float is a NaN
-- (rathole/src/proxy.rs: choose_best_tunnel).
use rathole_with_proxy.Base.{
  ℕ, ◌≤◌, ◌≡◌, ◌≢◌, refl, Option, none, some, Text, text_eq, HashMap, get, compare, Ordering, arith,
}
use rathole_with_proxy.Float.{Float, IsIeee}
use rathole_with_proxy.Health.{TunnelHealth}
use rathole_with_proxy.Health.Rates.{WellFormed, IsLatency}
use rathole_with_proxy.Proxy.Choose.{
  score_of, error_of, or_slow, latency_of, then_with, compare_health, compare_candidates,
}

-- Status, error rate and latency, by their places.
abbrev Key : Type 0
Key = ℕ × ℕ × ℕ

abbrev compare_keys : Key → Key → Ordering
compare_keys k j = then_with (then_with (compare k.0 j.0) (compare k.1 j.1)) (compare k.2 j.2)

keys_total : (k j : Key) → compare_keys k j ≡ Ordering.gt → compare_keys j k ≢ Ordering.gt
keys_total k j h = ground arith

keys_trans :
    (k j l : Key)
    → compare_keys k j ≢ Ordering.gt
    → compare_keys j l ≢ Ordering.gt
    → compare_keys k l ≢ Ordering.gt
keys_trans k j l h i = ground arith

-- Every record of the map is well-formed, so none holds a NaN.
abbrev pub AllWellFormed : (f : Float) → HashMap Text (TunnelHealth f.Carrier) → Type 0
AllWellFormed f m = (id : Text) (h : TunnelHealth f.Carrier) → get id m ≡ some h → WellFormed f h

module _ (f : Float) (ieee : IsIeee f) where
  -- The places of the two floats of a candidate.
  pub record Ranked (o : Option (TunnelHealth f.Carrier)) : Type 0 where
    pub error : ℕ
    pub latency : ℕ
    pub error_rank : f.rank (error_of f o) ≡ some error
    pub latency_rank : f.rank (latency_of f o) ≡ some latency

  rank_of_latency :
      (l : Option f.Carrier) → IsLatency f l → (n : ℕ) × (f.rank (or_slow f l) ≡ some n)
  rank_of_latency none h =
      let slow = ieee.tenths_mono 99990 99990 (omega arith) in (slow.left, slow.left_rank)
  rank_of_latency (some l) h = (h.right, h.right_rank)

  Ranked-WellFormed :
      (o : Option (TunnelHealth f.Carrier))
      → ((h : TunnelHealth f.Carrier) → o ≡ some h → WellFormed f h)
      → Ranked o
  Ranked-WellFormed none w =
      let half = ieee.tenths_mono 5 5 (omega arith) in
      let slow = ieee.tenths_mono 99990 99990 (omega arith) in
      record {
        error = half.left;
        latency = slow.left;
        error_rank = half.left_rank;
        latency_rank = slow.left_rank;
      }
  Ranked-WellFormed (some h) w =
      let (n, e) = rank_of_latency h.avg_latency_ms (w h refl).latency in
      record {
        error = (w h refl).rate.high.left;
        latency = n;
        error_rank = (w h refl).rate.high.left_rank;
        latency_rank = e;
      }

  compare-Ranked :
      (a b : Option (TunnelHealth f.Carrier)) (ra : Ranked a) (rb : Ranked b)
      → compare_health f a b
        ≡ compare_keys (score_of a, ra.error, ra.latency) (score_of b, rb.error, rb.latency)
  unfolding compare_health
  compare-Ranked a b ra rb = rw (ra.error_rank, rb.error_rank, ra.latency_rank, rb.latency_rank)

  module _ (m : HashMap Text (TunnelHealth f.Carrier)) (ok : AllWellFormed f m) where
    ranked : (id : Text) → Ranked (get id m)
    ranked id = Ranked-WellFormed (get id m) (ok id)

    key : Text → Key
    key id = (score_of (get id m), (ranked id).error, (ranked id).latency)

    compare_candidates-keys :
        (a b : Text) → compare_candidates f m a b ≡ compare_keys (key a) (key b)
    unfolding key
    compare_candidates-keys a b = compare-Ranked (get a m) (get b m) (ranked a) (ranked b)

    pub compare_candidates_total :
        (a b : Text)
        → compare_candidates f m a b ≡ Ordering.gt
        → compare_candidates f m b a ≢ Ordering.gt
    compare_candidates_total a b h =
        rw (compare_candidates-keys b a)
          (keys_total (key a) (key b) (rw (compare_candidates-keys a b) at h))

    pub compare_candidates_trans :
        (a b c : Text)
        → compare_candidates f m a b ≢ Ordering.gt
        → compare_candidates f m b c ≢ Ordering.gt
        → compare_candidates f m a c ≢ Ordering.gt
    compare_candidates_trans a b c h k = rw (compare_candidates-keys a c) (
        keys_trans (key a) (key b) (key c) (rw (compare_candidates-keys a b) at h)
          (rw (compare_candidates-keys b c) at k))

-- A comparison that is not greater never prefers the worse status.
pub score_of-compare :
    (f : Float) (m : HashMap Text (TunnelHealth f.Carrier)) (a b : Text)
    → compare_candidates f m a b ≢ Ordering.gt
    → score_of (get a m) ≤ score_of (get b m)
unfolding compare_health
score_of-compare f m a b h = ground arith
