-- ===== src/Health/Rates.antt =====
-- The counters, the error rate and the latency estimate of a tunnel keep to their ranges
-- (rathole/src/proxy.rs: the fields of TunnelHealth).
use rathole_with_proxy.Base.{
  ℕ, suc, ◌≤◌, ◌≡◌, refl, ◌⊎◌, inl, inr, subst, All, Option, none, some, List, [], ◌∷◌, arith,
}
use rathole_with_proxy.Float.{Float, Le, IsIeee, max}
use rathole_with_proxy.Health.{
  TunnelHealth, Reads, u32_max, default, roll_latency, decay_error_rate, raise_error_rate,
  record_success, record_failure,
}
use rathole_with_proxy.Health.Transitions.{Mark, success, failure, mark, run}

module _ (f : Float) where
  -- The float lies between the literals 0.0 and n / 10.
  pub record Between (n : ℕ) (x : f.Carrier) : Type 0 where
    pub low : Le f (f.tenths 0) x
    pub high : Le f x (f.tenths n)

  abbrev pub IsLatency : Option f.Carrier → Type 0
  IsLatency none = Unit
  IsLatency (some l) = Le f (f.tenths 0) l

  -- At most one counter runs, neither leaves `u32`, the error rate is in 0.0..1.0, and the latency,
  -- if known, is a number and not negative.
  pub record WellFormed (h : TunnelHealth f.Carrier) : Type 0 where
    pub successes : h.consecutive_successes ≤ u32_max
    pub failures : h.consecutive_failures ≤ u32_max
    pub exclusive : (h.consecutive_successes ≡ 0) ⊎ (h.consecutive_failures ≡ 0)
    pub rate : Between 10 h.error_rate
    pub latency : IsLatency h.avg_latency_ms

  -- The latency that a mark reports is a number and not negative.
  abbrev pub IsMeasured : Mark f.Carrier → Type 0
  IsMeasured (success l t) = IsLatency l
  IsMeasured (failure t) = Unit

  rate-record_success :
      (h : TunnelHealth f.Carrier) (l : Option f.Carrier) (t : Reads)
      → (record_success f h l t).error_rate ≡ decay_error_rate f h.error_rate
  unfolding record_success
  rate-record_success h l t = ground arith

  latency-record_success :
      (h : TunnelHealth f.Carrier) (l : Option f.Carrier) (t : Reads)
      → (record_success f h l t).avg_latency_ms ≡ roll_latency f h.avg_latency_ms l
  unfolding record_success
  latency-record_success h l t = ground arith

  rate-record_failure :
      (h : TunnelHealth f.Carrier) (t : Reads)
      → (record_failure f h t).error_rate ≡ raise_error_rate f h.error_rate
  unfolding record_failure
  rate-record_failure h t = ground arith

  latency-record_failure :
      (h : TunnelHealth f.Carrier) (t : Reads)
      → (record_failure f h t).avg_latency_ms ≡ h.avg_latency_ms
  unfolding record_failure
  latency-record_failure h t = ground arith

  module _ (ieee : IsIeee f) where
    Le-trans : (x y z : f.Carrier) → Le f x y → Le f y z → Le f x z
    Le-trans x y z p q = record {
      left = p.left;
      right = q.right;
      left_rank = p.left_rank;
      right_rank = q.right_rank;
      ordered = ground arith;
    }

    nonneg_mul :
        (x : f.Carrier) (n : ℕ)
        → Le f (f.tenths 0) x
        → Le f (f.tenths 0) (f.mul x (f.tenths (suc n)))
    nonneg_mul x n h =
        subst (λ z. Le f z (f.mul x (f.tenths (suc n)))) (ieee.zero_mul (suc n))
          (ieee.mul_mono (f.tenths 0) x (suc n) (omega arith) h)

    nonneg_add :
        (x z : f.Carrier)
        → Le f (f.tenths 0) x
        → Le f (f.tenths 0) z
        → Le f (f.tenths 0) (f.add x z)
    nonneg_add x z h k =
        subst (λ s. Le f s (f.add x z)) (ieee.zero_add 0)
          (ieee.add_mono (f.tenths 0) x (f.tenths 0) z (ieee.tenths_mono 0 0 (omega arith)) h
            (ieee.tenths_mono 0 0 (omega arith)) k)

    -- The larger of a number that is not negative and 0.0 is that number.
    max-zero : (x : f.Carrier) → Le f (f.tenths 0) x → max f x (f.tenths 0) ≡ x
    max-zero x h = ground arith

    decay_error_rate-Between : (e : f.Carrier) → Between 10 e → Between 10 (decay_error_rate f e)
    unfolding decay_error_rate
    decay_error_rate-Between e b = rw (max-zero _ (nonneg_mul e 8 b.low)) (record {
      low = nonneg_mul e 8 b.low;
      high =
          Le-trans _ _ _ (ieee.mul_mono e (f.tenths 10) 9 (omega arith) b.high)
            (rw ieee.one_mul (ieee.tenths_mono 9 10 (omega arith)));
    })

    raise_error_rate-Between : (e : f.Carrier) → Between 10 e → Between 10 (raise_error_rate f e)
    unfolding raise_error_rate
    raise_error_rate-Between e b = record {
      low = nonneg_add _ _ (nonneg_mul e 7 b.low) (ieee.tenths_mono 0 2 (omega arith));
      high =
          subst (λ z. Le f (f.add (f.mul e (f.tenths 8)) (f.tenths 2)) z) ieee.eight_two
            (subst (λ z. Le f (f.add (f.mul e (f.tenths 8)) (f.tenths 2)) (f.add z (f.tenths 2)))
              (ieee.one_mul 8)
              (ieee.add_mono _ _ _ _ (nonneg_mul e 7 b.low)
                (ieee.mul_mono e (f.tenths 10) 8 (omega arith) b.high)
                (ieee.tenths_mono 0 2 (omega arith)) (ieee.tenths_mono 2 2 (omega arith))));
    }

    roll_latency-IsLatency :
        (old new : Option f.Carrier)
        → IsLatency old
        → IsLatency new
        → IsLatency (roll_latency f old new)
    unfolding roll_latency
    roll_latency-IsLatency old none h k = h
    roll_latency-IsLatency none (some l) h k = k
    roll_latency-IsLatency (some p) (some l) h k =
        nonneg_add _ _ (nonneg_mul p 7 h) (nonneg_mul l 1 k)

    pub default-WellFormed : (now : ℕ) → WellFormed (default f now)
    unfolding default
    default-WellFormed now = record {
      successes = omega arith;
      failures = omega arith;
      exclusive = inl refl;
      rate = record {
        low = ieee.tenths_mono 0 0 (omega arith);
        high = ieee.tenths_mono 0 10 (omega arith);
      };
      latency = tt;
    }

    record_success-WellFormed :
        (h : TunnelHealth f.Carrier) (l : Option f.Carrier) (t : Reads)
        → IsLatency l
        → WellFormed h
        → WellFormed (record_success f h l t)
    unfolding record_success
    record_success-WellFormed h l t k w = record {
      successes = ground arith;
      failures = ground arith;
      exclusive = inr (ground arith);
      rate = rw (rate-record_success h l t) (decay_error_rate-Between h.error_rate w.rate);
      latency =
          rw (latency-record_success h l t) (roll_latency-IsLatency h.avg_latency_ms l w.latency k);
    }

    record_failure-WellFormed :
        (h : TunnelHealth f.Carrier) (t : Reads) → WellFormed h → WellFormed (record_failure f h t)
    unfolding record_failure
    record_failure-WellFormed h t w = record {
      successes = ground arith;
      failures = ground arith;
      exclusive = inl (ground arith);
      rate = rw (rate-record_failure h t) (raise_error_rate-Between h.error_rate w.rate);
      latency = rw (latency-record_failure h t) w.latency;
    }

    -- Every request that finishes, whatever its outcome, keeps the record well-formed.
    pub mark-WellFormed :
        (h : TunnelHealth f.Carrier) (m : Mark f.Carrier)
        → IsMeasured m
        → WellFormed h
        → WellFormed (mark f h m)
    unfolding mark
    mark-WellFormed h (success l t) k w = record_success-WellFormed h l t k w
    mark-WellFormed h (failure t) k w = record_failure-WellFormed h t w

    -- From a well-formed record on, after any requests whose latencies are in range, the
    -- counters of a tunnel fit 32 bits and one of them is 0, its error rate is between 0
    -- and 1 and its latency is in range. The floats have the order of IEEE 754.
    pub run-WellFormed :
        (h : TunnelHealth f.Carrier) (ms : List (Mark f.Carrier))
        → All IsMeasured ms
        → WellFormed h
        → WellFormed (run f h ms)
    unfolding run
    run-WellFormed h [] k w = w
    run-WellFormed h (m ∷ ms) k w = run-WellFormed (mark f h m) ms k.1 (mark-WellFormed h m k.0 w)
