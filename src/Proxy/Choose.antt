-- ===== src/Proxy/Choose.antt =====
-- choose_best_tunnel of rathole/src/proxy.rs. A tunnel's sender is of any type `S`.
pub mod Order
pub mod Better
pub mod Best
pub mod Critical
use rathole_with_proxy.Base.{
  ℕ, Bool, ◌||◌, Option, none, some, List, [], ◌∷◌, ◌++◌, Text, text_eq, codes, starts_with,
  HashMap, get, keys, filter, ◌==◌, compare, Ordering,
}
use rathole_with_proxy.Float.{Float, partial_cmp}
use rathole_with_proxy.Sort.{sort_by}
use rathole_with_proxy.Health.{HealthStatus, normal, warning, critical, TunnelHealth}

-- Normal < Warning < Critical
abbrev pub status_score : HealthStatus → ℕ
status_score normal = 0
status_score warning = 1
status_score critical = 2

-- An exact match, or a prefixed instance such as `app-01`.
unfoldable pub is_candidate : Text → Text → Bool
is_candidate subdomain k = k == subdomain || starts_with (subdomain ++ codes "-") k

-- `Ordering::then_with`
abbrev pub then_with : Ordering → Ordering → Ordering
then_with Ordering.eq second = second
then_with first second = first

-- `unwrap_or(Ordering::Equal)`
abbrev pub or_equal : Option Ordering → Ordering
or_equal none = Ordering.eq
or_equal (some o) = o

-- An unknown tunnel counts as Warning.
abbrev pub score_of : {F : Type 0} → Option (TunnelHealth F) → ℕ
score_of none = 1
score_of (some h) = status_score h.status

module _ (f : Float) where
  abbrev pub error_of : Option (TunnelHealth f.Carrier) → f.Carrier
  error_of none = f.tenths 5
  error_of (some h) = h.error_rate

  abbrev pub or_slow : Option f.Carrier → f.Carrier
  or_slow none = f.tenths 99990
  or_slow (some l) = l

  abbrev pub latency_of : Option (TunnelHealth f.Carrier) → f.Carrier
  latency_of none = f.tenths 99990
  latency_of (some h) = or_slow h.avg_latency_ms

  -- The comparison of two candidates by what is known of them.
  unfoldable pub compare_health :
      Option (TunnelHealth f.Carrier) → Option (TunnelHealth f.Carrier) → Ordering
  compare_health ha hb =
      then_with
        (then_with (compare (score_of ha) (score_of hb))
          (or_equal (partial_cmp f (error_of ha) (error_of hb))))
        (or_equal (partial_cmp f (latency_of ha) (latency_of hb)))

  abbrev pub compare_candidates : HashMap Text (TunnelHealth f.Carrier) → Text → Text → Ordering
  compare_candidates health a b = compare_health (get a health) (get b health)

  -- The first candidate that has a sender.
  unfoldable pub pick_registered : {S : Type 0} → HashMap Text S → List Text → Option (Text × S)
  pick_registered tunnels [] = none
  pick_registered tunnels (id ∷ ids) = elim (get id tunnels) [
    | some tx ↦ some (id, tx)
    | none ↦ pick_registered tunnels ids
  ]

  unfoldable pub choose_best_tunnel :
      {S : Type 0}
      → HashMap Text S
      → HashMap Text (TunnelHealth f.Carrier)
      → Text
      → Option (Text × S)
  choose_best_tunnel tunnels health subdomain =
      elim (filter (is_candidate subdomain) (keys tunnels)) [
        | [] ↦ none
        | id ∷ ids ↦ pick_registered tunnels (sort_by (compare_candidates health) (id ∷ ids))
      ]
