-- ===== src/Float/Scaled.antt =====
-- Fixed-point numbers in units of 1/10000 satisfy what is asked of the floating-point type.
use rathole_with_proxy.Base.{ℕ, ◌+◌, ◌*◌, ◌/◌, ◌≤◌, refl, some, arith}
use rathole_with_proxy.Float.{Float, Le, IsIeee}

abbrev pub scaled : Float
scaled = record {
  Carrier = ℕ;
  rank = some;
  tenths = λ n. n * 1000;
  add = λ x y. x + y;
  mul = λ x y. x * y / 10000;
  div = λ x y. x * 10000 / y;
  of_nat = λ n. n * 10000;
}

le_scaled : (x y : ℕ) → x ≤ y → Le scaled x y
le_scaled x y h = record { left = x; right = y; left_rank = refl; right_rank = refl; ordered = h }

-- The values of an order between scaled numbers.
Le-scaled : (x y : ℕ) → Le scaled x y → x ≤ y
Le-scaled x y h = ground arith

div_mono : (a b : ℕ) → a ≤ b → a / 10000 ≤ b / 10000
div_mono a b h = omega arith

product_mono : (x y k : ℕ) → x ≤ y → x * k ≤ y * k
product_mono x y k h = grind arith

pub scaled-IsIeee : IsIeee scaled
scaled-IsIeee = record {
  tenths_mono = λ n m h. le_scaled _ _ (omega arith);
  add_mono = λ x y z w _ h _ k. le_scaled _ _ (omega (arith, Le-scaled x y h, Le-scaled z w k));
  mul_mono = λ x y n p h. le_scaled _ _ (div_mono _ _ (product_mono x y _ (Le-scaled x y h)));
  zero_mul = λ n. omega arith;
  one_mul = λ n. omega arith;
  zero_add = λ n. omega arith;
  eight_two = refl;
}
