-- ===== src/Health.antt =====
-- The health record of a tunnel and the two functions that a finished request calls
-- (rathole/src/proxy.rs: HealthStatus, TunnelHealth, mark_tunnel_success, mark_tunnel_failure), and
-- the tests on it that route a request. An instant is a number of nanoseconds.
pub mod Transitions
pub mod Rates
pub mod Marks
use rathole_with_proxy.Base.{
  ℕ, ◌+◌, ◌-◌, ◌*◌, ◌^◌, min, Bool, true, false, ◌&&◌, not, Option, none, some, Text, text_eq,
  HashMap, get, insert, ltb, leb, if◌then◌else◌,
}
use rathole_with_proxy.Float.{Float, max}

pub data HealthStatus : Type 0 where
  normal warning critical : HealthStatus

pub record TunnelHealth (F : Type 0) : Type 0 where
  pub status : HealthStatus
  pub last_update : ℕ
  pub last_success : Option ℕ
  pub last_failure : Option ℕ
  pub consecutive_successes : ℕ
  pub consecutive_failures : ℕ
  pub avg_latency_ms : Option F
  pub error_rate : F
  pub last_transition : ℕ

-- `Duration::from_secs`
abbrev pub secs : ℕ → ℕ
secs n = n * 1000000000

abbrev pub stale_threshold : ℕ
stale_threshold = secs 30

abbrev pub warning_to_critical_failures : ℕ
warning_to_critical_failures = 5

abbrev pub success_to_normal : ℕ
success_to_normal = 3

abbrev pub hysteresis_duration : ℕ
hysteresis_duration = secs 10

-- `Instant::duration_since` is zero for an instant that lies ahead.
abbrev pub duration_since : ℕ → ℕ → ℕ
duration_since now earlier = now - earlier

abbrev pub u32_max : ℕ
u32_max = 2 ^ 32 - 1

-- `u32::saturating_add(1)`
abbrev pub saturating_suc : ℕ → ℕ
saturating_suc n = min (n + 1) u32_max

-- The readings of `Instant::now()` that one call makes, in the order in which it makes them: for a
-- new entry, for `last_update`, for `last_success` or `last_failure`, and for the transition.
pub record Reads : Type 0 where
  pub created : ℕ
  pub updated : ℕ
  pub recorded : ℕ
  pub decided : ℕ

abbrev pub is_warning : HealthStatus → Bool
is_warning warning = true
is_warning _ = false

abbrev pub is_critical : HealthStatus → Bool
is_critical critical = true
is_critical _ = false

module _ (f : Float) where
  -- `TunnelHealth::default`
  unfoldable pub default : ℕ → TunnelHealth f.Carrier
  default now = record {
    status = normal;
    last_update = now;
    last_success = none;
    last_failure = none;
    consecutive_successes = 0;
    consecutive_failures = 0;
    avg_latency_ms = none;
    error_rate = f.tenths 0;
    last_transition = now;
  }

  -- The rolling average of the latency.
  unfoldable pub roll_latency : Option f.Carrier → Option f.Carrier → Option f.Carrier
  roll_latency old none = old
  roll_latency none (some lat) = some lat
  roll_latency (some prev) (some lat) =
      some (f.add (f.mul prev (f.tenths 8)) (f.mul lat (f.tenths 2)))

  unfoldable pub decay_error_rate : f.Carrier → f.Carrier
  decay_error_rate e = max f (f.mul e (f.tenths 9)) (f.tenths 0)

  unfoldable pub raise_error_rate : f.Carrier → f.Carrier
  raise_error_rate e = f.add (f.mul e (f.tenths 8)) (f.tenths 2)

  -- What `mark_tunnel_success` does to the entry.
  unfoldable pub record_success :
      TunnelHealth f.Carrier → Option f.Carrier → Reads → TunnelHealth f.Carrier
  record_success h latency_ms t =
      if is_warning h.status
        && (leb success_to_normal (saturating_suc h.consecutive_successes)
            && leb hysteresis_duration (duration_since t.decided h.last_transition))
      then record counted { status = normal; last_transition = t.decided }
      else counted
    where
      counted : TunnelHealth f.Carrier
      counted = record h {
        last_update = t.updated;
        last_success = some t.recorded;
        consecutive_successes = saturating_suc h.consecutive_successes;
        consecutive_failures = 0;
        avg_latency_ms = roll_latency h.avg_latency_ms latency_ms;
        error_rate = decay_error_rate h.error_rate;
      }

  -- What `mark_tunnel_failure` does to the entry.
  unfoldable pub record_failure : TunnelHealth f.Carrier → Reads → TunnelHealth f.Carrier
  record_failure h t =
      if leb warning_to_critical_failures (saturating_suc h.consecutive_failures)
      then (if leb hysteresis_duration (duration_since t.decided h.last_transition)
          then record counted { status = critical; last_transition = t.decided }
          else counted)
      else (if not (is_critical h.status)
            && leb hysteresis_duration (duration_since t.decided h.last_transition)
          then record counted { status = warning; last_transition = t.decided }
          else counted)
    where
      counted : TunnelHealth f.Carrier
      counted = record h {
        last_update = t.updated;
        last_failure = some t.recorded;
        consecutive_failures = saturating_suc h.consecutive_failures;
        consecutive_successes = 0;
        error_rate = raise_error_rate h.error_rate;
      }

  -- `map.entry(id).or_insert_with(TunnelHealth::default)`
  unfoldable pub entry_or_default :
      Text → HashMap Text (TunnelHealth f.Carrier) → ℕ → TunnelHealth f.Carrier
  entry_or_default id m now = elim (get id m) [ none ↦ default now | some h ↦ h ]

  unfoldable pub mark_tunnel_success :
      HashMap Text (TunnelHealth f.Carrier)
      → Text
      → Option f.Carrier
      → Reads
      → HashMap Text (TunnelHealth f.Carrier)
  unfolding entry_or_default
  mark_tunnel_success m id latency_ms t =
      insert id (record_success (entry_or_default id m t.created) latency_ms t) m

  unfoldable pub mark_tunnel_failure :
      HashMap Text (TunnelHealth f.Carrier) → Text → Reads → HashMap Text (TunnelHealth f.Carrier)
  unfolding entry_or_default
  mark_tunnel_failure m id t = insert id (record_failure (entry_or_default id m t.created) t) m

-- The check of `proxy_handler` on a tunnel: not Critical and not stale; an unknown one may serve.
unfoldable pub is_healthy : {F : Type 0} → Option (TunnelHealth F) → ℕ → Bool
is_healthy none now = true
is_healthy (some h) now =
    not (is_critical h.status) && ltb (duration_since now h.last_update) stale_threshold

pub data RoutingDecision : Type 0 where
  route_local hybrid_sticky force_cloud route_cloud : RoutingDecision

unfoldable pub decide_routing :
    {F : Type 0} → Text → HashMap Text (TunnelHealth F) → ℕ → RoutingDecision
decide_routing id health_map now = elim (get id health_map) [
  | some h ↦
      if ltb stale_threshold (duration_since now h.last_update)
      then force_cloud
      else if is_critical h.status
      then force_cloud
      else if is_warning h.status
      then hybrid_sticky
      else route_local
  | none ↦ route_local
]
