-- ===== src/Float.antt =====
-- The floating-point numbers of the proxy (`f64` in rathole/src/proxy.rs, `f32` in
-- rathole/src/hardware.rs), as a parameter: a carrier, its place in the numeric order, and the
-- operations that the program uses. `Scaled` below is one such type, in units of 1/10000.
pub mod Scaled
use rathole_with_proxy.Base.{
  ℕ, ◌≤◌, ◌<◌, ◌≡◌, Option, none, some, compare, Ordering, Bool, true, false, leb, if◌then◌else◌,
}

pub record Float : Type 1 where
  pub Carrier : Type 0
  -- The place of a number among the numbers; `none` for a NaN.
  pub rank : Carrier → Option ℕ
  -- The literal n / 10.
  pub tenths : ℕ → Carrier
  pub add : Carrier → Carrier → Carrier
  pub mul : Carrier → Carrier → Carrier
  pub div : Carrier → Carrier → Carrier
  -- `n as f32` for an unsigned integer.
  pub of_nat : ℕ → Carrier

-- `f64::partial_cmp`, from the places of the two numbers.
abbrev pub compare_ranks : Option ℕ → Option ℕ → Option Ordering
compare_ranks none b = none
compare_ranks (some a) none = none
compare_ranks (some a) (some b) = some (compare a b)

module _ (f : Float) where
  abbrev pub partial_cmp : f.Carrier → f.Carrier → Option Ordering
  partial_cmp x y = compare_ranks (f.rank x) (f.rank y)

  -- `>` on floats is false if one side is a NaN.
  abbrev pub greater : f.Carrier → f.Carrier → Bool
  greater x y = elim (partial_cmp x y) [ some Ordering.gt ↦ true | _ ↦ false ]

  -- `f64::max` gives the other side of a NaN.
  abbrev pub max : f.Carrier → f.Carrier → f.Carrier
  max x y = elim (f.rank x) [
    | none ↦ y
    | some a ↦ elim (f.rank y) [ none ↦ x | some b ↦ if leb b a then x else y ]
  ]

  -- Both are numbers, and the first is not the larger.
  pub record Le (x y : f.Carrier) : Type 0 where
    pub left : ℕ
    pub right : ℕ
    pub left_rank : f.rank x ≡ some left
    pub right_rank : f.rank y ≡ some right
    pub ordered : left ≤ right

  -- What IEEE 754 says of the operations: the order is kept by a sum of numbers that are not negative
  -- and by a positive literal factor, and these results need no rounding.
  pub record IsIeee : Type 0 where
    pub tenths_mono : (n m : ℕ) → n ≤ m → Le (f.tenths n) (f.tenths m)
    pub add_mono :
        (x y z w : f.Carrier)
        → Le (f.tenths 0) x
        → Le x y
        → Le (f.tenths 0) z
        → Le z w
        → Le (f.add x z) (f.add y w)
    pub mul_mono :
        (x y : f.Carrier) (n : ℕ)
        → 0 < n
        → Le x y
        → Le (f.mul x (f.tenths n)) (f.mul y (f.tenths n))
    pub zero_mul : (n : ℕ) → f.mul (f.tenths 0) (f.tenths n) ≡ f.tenths 0
    pub one_mul : (n : ℕ) → f.mul (f.tenths 10) (f.tenths n) ≡ f.tenths n
    pub zero_add : (n : ℕ) → f.add (f.tenths 0) (f.tenths n) ≡ f.tenths n
    pub eight_two : f.add (f.tenths 8) (f.tenths 2) ≡ f.tenths 10
