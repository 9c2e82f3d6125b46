-- ===== src/Hardware.antt =====
-- The status that the hardware data of a tunnel gives it (rathole/src/hardware.rs). The subtraction
-- of `u64` wraps, as in a release build; a debug build panics where it does.
use rathole_with_proxy.Base.{
  ℕ, ◌+◌, ◌-◌, ◌%◌, ◌^◌, ◌≤◌, ◌<◌, ◌≡◌, ◌⊎◌, inl, inr, Bool, true, ◌||◌, leb, if◌then◌else◌, arith,
}
use rathole_with_proxy.Float.{Float, greater}
use rathole_with_proxy.Health.{HealthStatus, normal, critical}
use rathole_with_proxy.Message.{HardwareData}

abbrev pub sub_u64 : ℕ → ℕ → ℕ
sub_u64 a b = (a + (2 ^ 64 - b)) % 2 ^ 64

module _ (f : Float) where
  -- The condition for Critical. `90.0` is compared with a ratio, not with a percentage.
  abbrev pub exhausted : HardwareData f.Carrier → f.Carrier → Bool
  exhausted d cpu_limit =
      greater f d.cpu_usage cpu_limit
      || greater f (f.div (f.of_nat d.used_memory) (f.of_nat d.total_memory)) (f.tenths 900)
      || greater f (f.div (f.of_nat d.used_swap) (f.of_nat d.total_swap)) (f.tenths 900)
      || leb (sub_u64 d.total_swap d.used_swap) 1
      || leb (sub_u64 d.total_memory d.used_memory) 1

  unfoldable pub handle_hardware_data : HardwareData f.Carrier → f.Carrier → HealthStatus
  handle_hardware_data d cpu_limit = if exhausted d cpu_limit then critical else normal

  -- With at most one unit of memory or of swap free, or the processor over its limit, the status is
  -- Critical, for amounts of 64 bits of which no more is used than there is.
  pub handle_hardware_data-critical :
      (d : HardwareData f.Carrier) (cpu_limit : f.Carrier)
      → d.used_memory ≤ d.total_memory
      → d.total_memory < 2 ^ 64
      → d.used_swap ≤ d.total_swap
      → d.total_swap < 2 ^ 64
      → (d.total_memory ≤ d.used_memory + 1)
        ⊎ ((d.total_swap ≤ d.used_swap + 1) ⊎ (greater f d.cpu_usage cpu_limit ≡ true))
      → handle_hardware_data d cpu_limit ≡ critical
  unfolding handle_hardware_data
  handle_hardware_data-critical d cpu_limit m m64 s s64 (inl full) = ground (arith)
  handle_hardware_data-critical d cpu_limit m m64 s s64 (inr (inl full)) = ground (arith)
  handle_hardware_data-critical d cpu_limit m m64 s s64 (inr (inr hot)) = ground arith
