-- ===== src/Base/Strings.antt =====
-- Rust's `String` and `str` as the sequence of their code points, and byte strings.
use Prim.Native.Nat.{ℕ}
use Prim.Native.Char.{code}
use Prim.Native.String.{String}
use mathlib.Core.Path.{◌≡◌, refl}
use mathlib.Core.Logic.{◌↔◌}
use mathlib.Core.Bool.{Bool, true, false, ◌&&◌}
use mathlib.Core.List.{List, [], ◌∷◌}
use mathlib.Core.Option.{Option, none, some}
use native.Mathlib.Omega.{arith}
use rathole_with_proxy.Base.Tests.{eqb, Eq, if◌then◌else◌}

abbrev pub Text : Type 0
Text = List ℕ

abbrev pub Bytes : Type 0
Bytes = List ℕ

-- A literal of the source.
abbrev pub codes : String → Text
codes String.[] = []
codes (String.◌∷◌ c s) = code c ∷ codes s

abbrev pub text_eqb : Text → Text → Bool
text_eqb [] [] = true
text_eqb [] (y ∷ ys) = false
text_eqb (x ∷ xs) [] = false
text_eqb (x ∷ xs) (y ∷ ys) = eqb x y && text_eqb xs ys

pub text_eqb_iff : (a b : Text) → (text_eqb a b ≡ true) ↔ (a ≡ b)
text_eqb_iff [] [] = ((λ _. refl), (λ _. refl))
text_eqb_iff [] (y ∷ ys) = ((λ h. cc), (λ h. cc))
text_eqb_iff (x ∷ xs) [] = ((λ h. cc), (λ h. cc))
text_eqb_iff (x ∷ xs) (y ∷ ys) =
    ((λ h. ground (arith, (text_eqb_iff xs ys).0)), (λ h. ground (arith, (text_eqb_iff xs ys).1)))

instance abbrev pub text_eq : Eq Text
text_eq = record { equal = text_eqb; equal_iff = text_eqb_iff }

-- `str::strip_prefix`
abbrev pub strip_prefix : Text → Text → Option Text
strip_prefix [] s = some s
strip_prefix (p ∷ ps) [] = none
strip_prefix (p ∷ ps) (c ∷ cs) = if eqb p c then strip_prefix ps cs else none

-- `str::starts_with`
abbrev pub starts_with : Text → Text → Bool
starts_with [] s = true
starts_with (p ∷ ps) [] = false
starts_with (p ∷ ps) (c ∷ cs) = eqb p c && starts_with ps cs
