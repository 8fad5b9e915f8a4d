-- ===== src/Config/Validate/Emplace.antt =====
-- The loops of `validateConfig` that call `try_emplace` for each entry and throw if the key is taken.
use fronius_bridge.Prelude.{
  ◌≡◌, refl, ◌≢◌, inl, inr, none, some, List, [], ◌∷◌, arith, Eq, find, All, Distinct, Result, ok,
  err, Option-cases, sym,
}

module _ {ℓ κ μ ν} {A : Type ℓ} {K : Type κ} {V : Type μ} {E : Type ν} ⦃e : Eq K⦄ (key : A → K)
    (value : A → V) (clash : V → A → E) where
  unfoldable pub emplace_all : List (K × V) → List A → Result E (List (K × V))
  emplace_all seen [] = ok seen
  emplace_all seen (x ∷ xs) =
      let rest = emplace_all ((key x, value x) ∷ seen) xs in
      elim (find (key x) seen) [ none ↦ rest | some owner ↦ err (clash owner x) ]

abbrev pub Absent {ℓ κ} : {K : Type ℓ} {V : Type κ} ⦃e : Eq K⦄ → List (K × V) → K → Type κ
Absent m k = find k m ≡ none

module _ {ℓ κ} {K : Type ℓ} {V : Type κ} ⦃e : Eq K⦄ where
  pub Absent-cons :
      (k j : K) (v : V) (m : List (K × V)) → k ≢ j → Absent m k → Absent ((j, v) ∷ m) k
  unfolding find
  Absent-cons k j v m d h = ground (arith, e.beq_iff k j)

  pub Absent-tail : (k j : K) (v : V) (m : List (K × V)) → Absent ((j, v) ∷ m) k → Absent m k
  unfolding find
  Absent-tail k j v m h = ground (arith, e.beq_iff k j)

  pub Absent-ne : (k j : K) (v : V) (m : List (K × V)) → Absent ((j, v) ∷ m) k → k ≢ j
  unfolding find
  Absent-ne k j v m h = ground (arith, e.beq_iff k j)

module _ {ℓ κ μ ν} {A : Type ℓ} {K : Type κ} {V : Type μ} {E : Type ν} ⦃e : Eq K⦄ (key : A → K)
    (value : A → V) (clash : V → A → E) where
  Absent-tails :
      (k : K) (v : V) (seen : List (K × V)) (xs : List A)
      → All (λ y. Absent ((k, v) ∷ seen) (key y)) xs
      → All (λ y. Absent seen (key y)) xs × All (λ y. key y ≢ k) xs
  Absent-tails k v seen [] h = (tt, tt)
  Absent-tails k v seen (y ∷ ys) (h, hs) =
      let (a, d) = Absent-tails k v seen ys hs in
      ((Absent-tail (key y) k v seen h, a), (Absent-ne (key y) k v seen h, d))

  Absent-conses :
      (k : K) (v : V) (seen : List (K × V)) (xs : List A)
      → All (λ y. Absent seen (key y)) xs
      → All (λ y. key y ≢ k) xs
      → All (λ y. Absent ((k, v) ∷ seen) (key y)) xs
  Absent-conses k v seen [] h d = tt
  Absent-conses k v seen (y ∷ ys) (h, hs) (d, ds) =
      (Absent-cons (key y) k v seen d h, Absent-conses k v seen ys hs ds)

  -- The loop ends without a throw only if all keys are new and differ,
  pub emplace_all-Distinct :
      (seen : List (K × V)) (xs : List A) {m : List (K × V)}
      → emplace_all key value clash seen xs ≡ ok m
      → All (λ x. Absent seen (key x)) xs × Distinct key xs
  unfolding emplace_all
  emplace_all-Distinct seen [] h = (tt, tt)
  emplace_all-Distinct seen (x ∷ xs) h = elim (Option-cases (find (key x) seen)) [
    | inl new ↦
        let (a, d) =
          emplace_all-Distinct ((key x, value x) ∷ seen) xs (rw (new, emplace_all) at h) in
        let (b, c) = Absent-tails (key x) (value x) seen xs a in ((new, b), (c, d))
    | inr (o, old) ↦ ground arith
  ]

  -- and does end so then.
  pub emplace_all-ok :
      (seen : List (K × V)) (xs : List A)
      → All (λ x. Absent seen (key x)) xs
      → Distinct key xs
      → (m : List (K × V)) × (emplace_all key value clash seen xs ≡ ok m)
  unfolding emplace_all
  emplace_all-ok seen [] a d = (seen, refl)
  emplace_all-ok seen (x ∷ xs) (new, a) (c, d) =
      let (m, h) =
        emplace_all-ok ((key x, value x) ∷ seen) xs (Absent-conses (key x) (value x) seen xs a c)
          d in
      (m, ground arith)

  -- A key is free afterwards if it was free before and is no entry's.
  pub emplace_all-Absent :
      (seen : List (K × V)) (xs : List A) (k : K) {m : List (K × V)}
      → emplace_all key value clash seen xs ≡ ok m
      → Absent m k
      → Absent seen k × All (λ x. key x ≢ k) xs
  unfolding emplace_all
  emplace_all-Absent seen [] k h a = ground arith
  emplace_all-Absent seen (x ∷ xs) k h a = elim (Option-cases (find (key x) seen)) [
    | inl new ↦
        let (b, d) =
          emplace_all-Absent ((key x, value x) ∷ seen) xs k (rw (new, emplace_all) at h) a in
        (
          Absent-tail k (key x) (value x) seen b,
          ((λ same. Absent-ne k (key x) (value x) seen b (sym same)), d),
        )
    | inr (o, old) ↦ ground arith
  ]

  pub emplace_all-free :
      (seen : List (K × V)) (xs : List A) (k : K) {m : List (K × V)}
      → emplace_all key value clash seen xs ≡ ok m
      → Absent seen k
      → All (λ x. key x ≢ k) xs
      → Absent m k
  unfolding emplace_all
  emplace_all-free seen [] k h a d = ground arith
  emplace_all-free seen (x ∷ xs) k h a (d, ds) = elim (Option-cases (find (key x) seen)) [
    | inl new ↦
        emplace_all-free ((key x, value x) ∷ seen) xs k (rw (new, emplace_all) at h)
          (Absent-cons k (key x) (value x) seen (λ same. d (sym same)) a) ds
    | inr (o, old) ↦ ground arith
  ]
