-- ===== src/Prelude/Lists.antt =====
-- Lists measured by native numbers, predicates over a list, and a map as an association list.
use Prim.Native.Nat.{ℕ, suc, ◌+◌}
use mathlib.Core.Path.{◌≡◌, refl}
use mathlib.Core.Logic.{◌≢◌, inl, inr}
use mathlib.Core.Option.{Option, none, some}
use mathlib.Core.List.{List, [], ◌∷◌, ◌++◌}
use native.Mathlib.Omega.{arith}
use fronius_bridge.Prelude.Tests.{Eq, ◌==◌, if◌then◌else◌, Bool-cases}

module _ {ℓ} {A : Type ℓ} where
  abbrev pub length : List A → ℕ
  length [] = 0
  length (x ∷ xs) = suc (length xs)

  pub length-append : (xs ys : List A) → length (xs ++ ys) ≡ length xs + length ys
  length-append [] ys = omega arith
  length-append (x ∷ xs) ys = omega (arith, length-append xs ys)

  abbrev pub All {κ} : (A → Type κ) → List A → Type κ
  All P [] = Unit
  All P (x ∷ xs) = P x × All P xs

  pub All-append {κ} : (P : A → Type κ) (xs ys : List A) → All P xs → All P ys → All P (xs ++ ys)
  All-append P [] ys _ q = q
  All-append P (x ∷ xs) ys (p, ps) q = (p, All-append P xs ys ps q)

  pub All-map {κ μ} :
      {P : A → Type κ} {Q : A → Type μ} (xs : List A) → ((x : A) → P x → Q x) → All P xs → All Q xs
  All-map [] f _ = tt
  All-map (x ∷ xs) f (p, ps) = (f x p, All-map xs f ps)

  -- No two entries have the same key.
  abbrev pub Distinct {κ} : {K : Type κ} → (A → K) → List A → Type (ℓ ⊔ κ)
  Distinct {K} key [] = Unit
  Distinct {K} key (x ∷ xs) = All (λ y. key y ≢ key x) xs × Distinct key xs

  abbrev pub collect {κ} : {B : Type κ} → (A → Option B) → List A → List B
  collect f [] = []
  collect f (x ∷ xs) = elim (f x) [ none ↦ collect f xs | some y ↦ y ∷ collect f xs ]

module _ {ℓ κ} {K : Type ℓ} {V : Type κ} ⦃e : Eq K⦄ where
  unfoldable pub find : K → List (K × V) → Option V
  find k [] = none
  find k ((j, v) ∷ m) = if k == j then some v else find k m

  -- An entry in place of that of the same key, or after all others.
  unfoldable pub put : K → V → List (K × V) → List (K × V)
  put k v [] = (k, v) ∷ []
  put k v ((j, w) ∷ m) = let rest = put k v m in if k == j then (j, v) ∷ m else (j, w) ∷ rest

  -- What is put under a key is found there,
  pub find-put : (k : K) (v : V) (m : List (K × V)) → find k (put k v m) ≡ some v
  unfolding find put
  find-put k v [] = ground (arith, e.beq_iff k k)
  find-put k v ((j, w) ∷ m) = elim (Bool-cases (k == j)) [
    | inl h ↦ rw (h, h) refl
    | inr h ↦ rw (h, h) (find-put k v m)
  ]

  -- and nothing else is found under another key.
  pub find-put-other : (k j : K) (v : V) (m : List (K × V)) → k ≢ j → find k (put j v m) ≡ find k m
  unfolding find put
  find-put-other k j v [] n = ground (arith, e.beq_iff k j)
  find-put-other k j v ((i, w) ∷ m) n = elim (Bool-cases (j == i)) [
    | inl h ↦ rw h (ground (arith, e.beq_iff k i, e.beq_iff j i))
    | inr h ↦ rw h (ground (arith, find-put-other k j v m n))
  ]
