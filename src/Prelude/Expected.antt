-- ===== src/Prelude/Expected.antt =====
-- `std::expected` and exceptions: a value, or the error that ends the computation.
use mathlib.Core.Path.{◌≡◌, refl}
use mathlib.Core.Logic.{◌⊎◌, inl, inr}
use mathlib.Core.Bool.{Bool, true, false}

pub data Result {ℓ κ} (E : Type ℓ) (A : Type κ) : Type (ℓ ⊔ κ) where
  ok : A → Result E A
  err : E → Result E A

infixl 5 ◌>>=◌ ◌>>◌
abbrev pub ◌>>=◌ {ℓ κ μ} :
    {E : Type ℓ} {A : Type κ} {B : Type μ} (r : Result E A) (next : A → Result E B) → Result E B
◌>>=◌ (err x) next = err x
◌>>=◌ (ok v) next = next v

abbrev pub ◌>>◌ {ℓ κ} :
    {E : Type ℓ} {B : Type κ} (first : Result E (Unit {0})) (second : Result E B) → Result E B
first >> second = first >>= λ _. second

-- `if (test) throw error;`
abbrev pub throw_if {ℓ} : {E : Type ℓ} → Bool → E → Result E (Unit {0})
throw_if true x = err x
throw_if false x = ok tt

pub >>=-eq-ok {ℓ κ μ} :
    {E : Type ℓ} {A : Type κ} {B : Type μ} (r : Result E A) (next : A → Result E B) {w : B}
    → (r >>= next) ≡ ok w
    → (v : A) × (r ≡ ok v) × (next v ≡ ok w)
>>=-eq-ok (err x) next e = cc
>>=-eq-ok (ok v) next e = (v, refl, e)

pub eq_ok->>= {ℓ κ μ} :
    {E : Type ℓ} {A : Type κ} {B : Type μ} (m : Result E A) (f : A → Result E B) {a : A} {b : B}
    → m ≡ ok a
    → f a ≡ ok b
    → (m >>= f) ≡ ok b
eq_ok->>= m f e h = rw e h

pub Result-cases {ℓ κ} :
    {E : Type ℓ} {A : Type κ} (r : Result E A) → ((a : A) × (r ≡ ok a)) ⊎ ((x : E) × (r ≡ err x))
Result-cases (ok a) = inl (a, refl)
Result-cases (err x) = inr (x, refl)

pub ok-injective {ℓ κ} :
    {E : Type ℓ} {A : Type κ} (x y : A) → Path (Result E A) (ok x) (ok y) → x ≡ y
ok-injective x y h = cc
