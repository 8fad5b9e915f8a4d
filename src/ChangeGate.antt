-- ===== src/ChangeGate.antt =====
-- include/change_gate.h: the detector that lets a value through when it differs from the last one.
use fronius_bridge.Prelude.{
  ◌≡◌, ◌≢◌, refl, Bool, true, false, Option, none, some, List, [], ◌∷◌, Eq, ◌==◌, if◌then◌else◌,
  inl, inr, Bool-cases, arith,
}

module _ {A : Type 0} where
  -- What a consumer holds after the messages, if it held `held` before.
  abbrev pub latest : Option A → List A → Option A
  latest held [] = held
  latest held (v ∷ vs) = latest (some v) vs

  abbrev Differs : Option A → A → Type 0
  Differs none v = Unit
  Differs (some w) v = w ≢ v

  abbrev pub NoRepeat : Option A → List A → Type 0
  NoRepeat last [] = Unit
  NoRepeat last (v ∷ vs) = Differs last v × NoRepeat (some v) vs

module _ {A : Type 0} ⦃e : Eq A⦄ where
  -- `last_ && *last_ == value`
  abbrev is_last : Option A → A → Bool
  is_last none value = false
  is_last (some last) value = last == value

  -- The gate after a value, and whether it lets the value through.
  unfoldable pub changed : Option A → A → Option A × Bool
  changed last value = if is_last last value then (last, false) else (some value, true)

  abbrev pub keep : Bool → A → List A → List A
  keep true value rest = value ∷ rest
  keep false value rest = rest

  -- The values of a stream that a gate lets through.
  unfoldable pub forward : Option A → List A → List A
  unfolding changed
  forward last [] = []
  forward last (v ∷ vs) = let (last', through) = changed last v in keep through v (forward last' vs)

  forward-latest : (last : Option A) (vs : List A) → latest last (forward last vs) ≡ latest last vs
  unfolding forward changed
  forward-latest last [] = refl
  forward-latest none (v ∷ vs) = forward-latest (some v) vs
  forward-latest (some w) (v ∷ vs) = elim (Bool-cases (w == v)) [
    | inl h ↦ rw (h, ← (e.beq_iff w v).0 h) (forward-latest (some w) vs)
    | inr h ↦ rw h (forward-latest (some v) vs)
  ]

  forward-NoRepeat : (last : Option A) (vs : List A) → NoRepeat last (forward last vs)
  unfolding forward changed
  forward-NoRepeat last [] = tt
  forward-NoRepeat none (v ∷ vs) = (tt, forward-NoRepeat (some v) vs)
  forward-NoRepeat (some w) (v ∷ vs) = elim (Bool-cases (w == v)) [
    | inl h ↦ rw h (forward-NoRepeat (some w) vs)
    | inr h ↦ rw h (ground (arith, e.beq_iff w v), forward-NoRepeat (some v) vs)
  ]

  -- A consumer that takes the values a gate lets through holds the newest value after each stream, and is never
  -- sent the value that it holds.
  pub forward_refines :
      (last : Option A) (vs : List A)
      → (latest last (forward last vs) ≡ latest last vs) × NoRepeat last (forward last vs)
  forward_refines last vs = (forward-latest last vs, forward-NoRepeat last vs)
