-- ===== src/Config/Equality/Classes.antt =====
-- Equality of pairs, options and Booleans, and of values that a code determines.
use rathole_with_proxy.Base.{
  Bool, true, false, ◌&&◌, Option, none, some, ◌≡◌, refl, Eq, ◌==◌, ==_iff, not, ap, sym, ◌∙◌, ◌↔◌,
  arith,
}

pub eq_by_iff :
    {A B : Type 0} ⦃e : Eq B⦄ (f : A → B)
    → ((a b : A) → f a ≡ f b → a ≡ b)
    → (a b : A) → ((f a == f b) ≡ true) ↔ (a ≡ b)
eq_by_iff f injective a b =
    ((λ h. injective a b ((==_iff (f a) (f b)).0 h)), (λ h. ground (arith, ==_iff (f a) (f b))))

-- A code that can be read back determines the value.
pub back :
    {A B : Type 0} (f : A → B) (g : B → A) → ((a : A) → g (f a) ≡ a) → (a b : A) → f a ≡ f b → a ≡ b
back f g law a b h = sym (law a) ∙ ap g h ∙ law b

-- Values are compared by a code that determines them.
abbrev pub eq_by : {A B : Type 0} ⦃e : Eq B⦄ (f : A → B) → ((a b : A) → f a ≡ f b → a ≡ b) → Eq A
eq_by f injective = record { equal = λ a b. f a == f b; equal_iff = eq_by_iff f injective }

abbrev pub pair_eqb : {A B : Type 0} ⦃e : Eq A⦄ ⦃d : Eq B⦄ → A × B → A × B → Bool
pair_eqb a b = a.0 == b.0 && a.1 == b.1

pub pair_eqb_iff :
    {A B : Type 0} ⦃e : Eq A⦄ ⦃d : Eq B⦄ (a b : A × B) → (pair_eqb a b ≡ true) ↔ (a ≡ b)
pair_eqb_iff (a, b) (c, d) = (
  (λ h. ground (arith, ==_iff a c, ==_iff b d)),
  (λ h. ground (arith, ==_iff a c, ==_iff b d, ap (λ p. p.0) h, ap (λ p. p.1) h)),
)

instance abbrev pub pair_eq : {A B : Type 0} ⦃e : Eq A⦄ ⦃d : Eq B⦄ → Eq (A × B)
pair_eq = record { equal = pair_eqb; equal_iff = pair_eqb_iff }

abbrev pub option_eqb : {A : Type 0} ⦃e : Eq A⦄ → Option A → Option A → Bool
option_eqb none none = true
option_eqb none (some b) = false
option_eqb (some a) none = false
option_eqb (some a) (some b) = a == b

pub option_eqb_iff : {A : Type 0} ⦃e : Eq A⦄ (a b : Option A) → (option_eqb a b ≡ true) ↔ (a ≡ b)
option_eqb_iff none none = ((λ _. refl), (λ _. refl))
option_eqb_iff none (some b) = ((λ h. cc), (λ h. cc))
option_eqb_iff (some a) none = ((λ h. cc), (λ h. cc))
option_eqb_iff (some a) (some b) =
    ((λ h. ground (arith, ==_iff a b)), (λ h. ground (arith, ==_iff a b)))

instance abbrev pub option_eq : {A : Type 0} ⦃e : Eq A⦄ → Eq (Option A)
option_eq = record { equal = option_eqb; equal_iff = option_eqb_iff }

abbrev pub bool_eqb : Bool → Bool → Bool
bool_eqb true b = b
bool_eqb false b = not b

pub bool_eqb_iff : (a b : Bool) → (bool_eqb a b ≡ true) ↔ (a ≡ b)
bool_eqb_iff a b = ground arith

instance abbrev pub bool_eq : Eq Bool
bool_eq = record { equal = bool_eqb; equal_iff = bool_eqb_iff }
