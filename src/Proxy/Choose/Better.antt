-- ===== src/Proxy/Choose/Better.antt =====
-- What "better" means for a tunnel, apart from the code's comparison: the rules in the comment of
-- choose_best_tunnel (rathole/src/proxy.rs).
use rathole_with_proxy.Base.{ℕ, ◌<◌, ◌≡◌, refl, ap, Option, none, some, Ordering, arith}
use rathole_with_proxy.Float.{Float}
use rathole_with_proxy.Health.{HealthStatus, normal, warning, critical, TunnelHealth}
use rathole_with_proxy.Proxy.Choose.{
  status_score, score_of, error_of, or_slow, latency_of, compare_health,
}

pub data Healthier : HealthStatus → HealthStatus → Type 0 where
  normal_warning : Healthier normal warning
  normal_critical : Healthier normal critical
  warning_critical : Healthier warning critical

module _ (f : Float) where
  -- What is taken for a tunnel without a record, or without a latency (9999 ms).
  abbrev pub Known : Type 0
  Known = Option (TunnelHealth f.Carrier)

  abbrev pub status_known : Known → HealthStatus
  status_known none = warning
  status_known (some h) = h.status

  abbrev pub error_known : Known → f.Carrier
  error_known none = f.tenths 5
  error_known (some h) = h.error_rate

  abbrev pub or_9999 : Option f.Carrier → f.Carrier
  or_9999 none = f.tenths 99990
  or_9999 (some l) = l

  abbrev pub latency_known : Known → f.Carrier
  latency_known none = f.tenths 99990
  latency_known (some h) = or_9999 h.avg_latency_ms

  -- Numbers, by their places.
  pub record Less (x y : f.Carrier) : Type 0 where
    pub left : ℕ
    pub right : ℕ
    pub left_rank : f.rank x ≡ some left
    pub right_rank : f.rank y ≡ some right
    pub ordered : left < right

  pub record Same (x y : f.Carrier) : Type 0 where
    pub place : ℕ
    pub left_rank : f.rank x ≡ some place
    pub right_rank : f.rank y ≡ some place

  -- A better status; else, with the same status, a lower error rate; else, with the same error rate
  -- too, a lower latency.
  pub data Better (a b : Known) : Type 0 where
    by_status : Healthier (status_known a) (status_known b) → Better a b
    by_error : status_known a ≡ status_known b → Less (error_known a) (error_known b) → Better a b
    by_latency :
        status_known a ≡ status_known b
        → Same (error_known a) (error_known b)
        → Less (latency_known a) (latency_known b)
        → Better a b

  -- The code's keys are these.
  score_of-known : (a : Known) → score_of a ≡ status_score (status_known a)
  score_of-known none = refl
  score_of-known (some h) = refl

  error_of-known : (a : Known) → error_of f a ≡ error_known a
  error_of-known none = refl
  error_of-known (some h) = refl

  or_slow-known : (l : Option f.Carrier) → or_slow f l ≡ or_9999 l
  or_slow-known none = refl
  or_slow-known (some l) = refl

  latency_of-known : (a : Known) → latency_of f a ≡ latency_known a
  latency_of-known none = refl
  latency_of-known (some h) = or_slow-known h.avg_latency_ms

  Healthier-status_score : (x y : HealthStatus) → Healthier x y → status_score x < status_score y
  Healthier-status_score _ _ normal_warning = omega arith
  Healthier-status_score _ _ normal_critical = omega arith
  Healthier-status_score _ _ warning_critical = omega arith

  pub Better-compare_health : (a b : Known) → Better b a → compare_health f a b ≡ Ordering.gt
  unfolding compare_health
  Better-compare_health a b (by_status h) =
      let l = Healthier-status_score (status_known b) (status_known a) h in
      ground (arith, score_of-known a, score_of-known b)
  Better-compare_health a b (by_error s e) =
      let same = ap status_score s in
      rw
        (
          score_of-known a,
          score_of-known b,
          error_of-known a,
          error_of-known b,
          e.left_rank,
          e.right_rank,
        )
        (ground (arith, same, e.ordered))
  Better-compare_health a b (by_latency s e l) =
      let same = ap status_score s in
      rw
        (
          score_of-known a,
          score_of-known b,
          error_of-known a,
          error_of-known b,
          latency_of-known a,
          latency_of-known b,
          e.left_rank,
          e.right_rank,
          l.left_rank,
          l.right_rank,
        )
        (ground (arith, same, l.ordered))
