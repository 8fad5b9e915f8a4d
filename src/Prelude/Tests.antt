-- ===== src/Prelude/Tests.antt =====
-- Boolean tests on numbers, and equality as an interface.
use Prim.Native.Nat.{ℕ, compare, Ordering}
use Prim.Native.String.{String}
use mathlib.Core.Path.{◌≡◌, refl}
use mathlib.Core.Logic.{◌⊎◌, ◌↔◌, inl, inr}
use mathlib.Core.Bool.{Bool, true, false, ◌&&◌}
use mathlib.Core.Option.{Option, none, some}
use native.Mathlib.Omega.{arith}
use text.Mathlib.Text.{◌==◌ as text_beq}
use text.Mathlib.TextEquality.{eq_iff}

abbrev pub ltb : ℕ → ℕ → Bool
ltb a b = elim (compare a b) [ Ordering.lt ↦ true | _ ↦ false ]

abbrev pub leb : ℕ → ℕ → Bool
leb a b = elim (compare a b) [ Ordering.gt ↦ false | _ ↦ true ]

abbrev pub nat_beq : ℕ → ℕ → Bool
nat_beq a b = elim (compare a b) [ Ordering.eq ↦ true | _ ↦ false ]

infix 1 if◌then◌else◌
abbrev pub if◌then◌else◌ {ℓ} : {A : Type ℓ} → Bool → A → A → A
if true then x else y = x
if false then x else y = y

-- What holds of both branches holds of the branch taken.
pub if-elim {ℓ κ} :
    {A : Type ℓ} (P : A → Type κ) (b : Bool) {x y : A} → P x → P y → P (if b then x else y)
if-elim P true p q = p
if-elim P false p q = q

pub if-split {ℓ κ} :
    {A : Type ℓ} (P : A → Type κ) (b : Bool) (x y : A)
    → (b ≡ true → P x)
    → (b ≡ false → P y)
    → P (if b then x else y)
if-split P true x y p q = p refl
if-split P false x y p q = q refl

pub taken {ℓ κ} :
    {A : Type ℓ} (P : A → Type κ) (b : Bool) (x y : A) → b ≡ true → P x → P (if b then x else y)
taken P true x y h p = p
taken P false x y h p = absurd (ground arith)

pub Bool-cases : (b : Bool) → (b ≡ true) ⊎ (b ≡ false)
Bool-cases true = inl refl
Bool-cases false = inr refl

pub Option-cases {ℓ} : {A : Type ℓ} (o : Option A) → (o ≡ none) ⊎ ((a : A) × (o ≡ some a))
Option-cases none = inl refl
Option-cases (some a) = inr (a, refl)

abbrev pub has_value {ℓ} : {A : Type ℓ} → Option A → Bool
has_value none = false
has_value (some _) = true

pub nat_beq_iff : (a b : ℕ) → (nat_beq a b ≡ true) ↔ (a ≡ b)
nat_beq_iff a b = ground arith

-- Types whose values the program compares with `==`.
pub record Eq {ℓ} (T : Type ℓ) : Type ℓ where
  pub beq : (x y : T) → Bool
  pub beq_iff : (x y : T) → (beq x y ≡ true) ↔ (x ≡ y)

instance abbrev pub text_eq : Eq String
text_eq = record { beq = text_beq; beq_iff = eq_iff }

infix 50 ◌==◌
abbrev pub ◌==◌ {ℓ} : {T : Type ℓ} ⦃same : Eq T⦄ (x y : T) → Bool
◌==◌ ⦃same⦄ x y = same.beq x y

instance abbrev pub nat_eq : Eq ℕ
nat_eq = record { beq = nat_beq; beq_iff = nat_beq_iff }

module _ {ℓ κ} {A : Type ℓ} {B : Type κ} where
  abbrev pub pair_beq : (A → A → Bool) → (B → B → Bool) → A × B → A × B → Bool
  pair_beq f g (a, b) (c, d) = f a c && g b d

  pub pair_beq_iff :
      (e : Eq A) (f : Eq B) (p q : A × B) → (pair_beq e.beq f.beq p q ≡ true) ↔ (p ≡ q)
  pair_beq_iff e f (a, b) (c, d) = ground (arith, e.beq_iff a c, f.beq_iff b d)

  instance abbrev pub pair_eq : ⦃e : Eq A⦄ ⦃f : Eq B⦄ → Eq (A × B)
  pair_eq ⦃e⦄ ⦃f⦄ = record { beq = pair_beq e.beq f.beq; beq_iff = pair_beq_iff e f }

module _ {ℓ} {A : Type ℓ} where
  abbrev pub option_beq : (A → A → Bool) → Option A → Option A → Bool
  option_beq f none none = true
  option_beq f (some a) (some b) = f a b
  option_beq f _ _ = false

  pub option_beq_iff : (e : Eq A) (p q : Option A) → (option_beq e.beq p q ≡ true) ↔ (p ≡ q)
  option_beq_iff e none none = ground arith
  option_beq_iff e (some a) (some b) = ground (arith, e.beq_iff a b)
  option_beq_iff e none (some b) = ground arith
  option_beq_iff e (some a) none = ground arith

  instance abbrev pub option_eq : ⦃e : Eq A⦄ → Eq (Option A)
  option_eq ⦃e⦄ = record { beq = option_beq e.beq; beq_iff = option_beq_iff e }
