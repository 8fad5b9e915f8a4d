-- ===== src/Db/Handles/Freed.antt =====
-- That no handle is lost and none is freed twice.
use mathlib.Core.Path.{subst}
use fronius_bridge.Prelude.{
  ℕ, zero, suc, ◌+◌, ◌<◌, ◌≡◌, refl, sym, ap, ◌∙◌, Option, none, some, List, [], ◌∷◌, ◌==◌, nat_eq,
  length, All, if◌then◌else◌, if-elim, arith,
}
use fronius_bridge.Db.Handles.{
  Objects, get, set, free, clear, take_over, Step, make, move_construct, move_assign, destroy, step,
  steps,
}

abbrev pub count : ℕ → List ℕ → ℕ
count h [] = 0
count h (x ∷ xs) = (if h == x then 1 else 0) + count h xs

abbrev is_held : ℕ → Option ℕ → ℕ
is_held h none = 0
is_held h (some x) = if h == x then 1 else 0

abbrev held : ℕ → List (Option ℕ) → ℕ
held h [] = 0
held h (x ∷ xs) = is_held h x + held h xs

-- How often a handle is about: owned by an object, or freed.
abbrev pub total : ℕ → Objects → ℕ
total h o = held h o.handles + count h o.freed

abbrev handed : ℕ → Step → ℕ
handed h (make i x) = is_held h x
handed h _ = 0

-- How often a handle has been handed to an object.
abbrev pub handed_out : ℕ → List Step → ℕ
handed_out h [] = 0
handed_out h (s ∷ ss) = handed h s + handed_out h ss

-- The objects that a step names are among the first n.
abbrev pub IsWithin : ℕ → Step → Type 0
IsWithin n (make i h) = i < n
IsWithin n (move_construct i j) = (i < n) × (j < n)
IsWithin n (move_assign i j) = (i < n) × (j < n)
IsWithin n (destroy i) = i < n

held-set :
    (h i : ℕ) (x : Option ℕ) (xs : List (Option ℕ))
    → i < length xs
    → held h (set i x xs) + is_held h (get i xs) ≡ held h xs + is_held h x
held-set h i x [] k = absurd (omega arith)
held-set h zero x (y ∷ ys) k = omega arith
held-set h (suc i) x (y ∷ ys) k = let e = held-set h i x ys (omega arith) in omega arith

length-set : (i : ℕ) (x : Option ℕ) (xs : List (Option ℕ)) → length (set i x xs) ≡ length xs
length-set i x [] = refl
length-set zero x (y ∷ ys) = refl
length-set (suc i) x (y ∷ ys) = ap suc (length-set i x ys)

get-set : (i : ℕ) (x : Option ℕ) (xs : List (Option ℕ)) → i < length xs → get i (set i x xs) ≡ x
get-set i x [] k = absurd (omega arith)
get-set zero x (y ∷ ys) k = refl
get-set (suc i) x (y ∷ ys) k = get-set i x ys (omega arith)

-- A copy of an object's handle elsewhere leaves the object's.
get-copied : (i j : ℕ) (xs : List (Option ℕ)) → get j (set i (get j xs) xs) ≡ get j xs
get-copied i j [] = refl
get-copied zero zero (y ∷ ys) = refl
get-copied zero (suc j) (y ∷ ys) = refl
get-copied (suc i) zero (y ∷ ys) = refl
get-copied (suc i) (suc j) (y ∷ ys) = get-copied i j ys

count-free : (h : ℕ) (x : Option ℕ) (f : List ℕ) → count h (free x f) ≡ is_held h x + count h f
count-free h none f = omega arith
count-free h (some x) f = refl

clear-total : (h i : ℕ) (o : Objects) → i < length o.handles → total h (clear i o) ≡ total h o
unfolding clear
clear-total h i o k =
    let e = held-set h i none o.handles k in
    let f = count-free h (get i o.handles) o.freed in omega arith

take_over-total :
    (h i j : ℕ) (o : Objects)
    → i < length o.handles
    → j < length o.handles
    → get i o.handles ≡ none
    → total h (take_over i j o) ≡ total h o
unfolding take_over
take_over-total h i j o k l n =
    let g = get j o.handles in
    let xs = set i g o.handles in
    let e = held-set h i g o.handles k in
    let f = held-set h j none xs (within (length-set i g o.handles) l) in
    let c = ap (is_held h) (get-copied i j o.handles) in let z = ap (is_held h) n in omega arith
  where
    within : {a b : ℕ} → a ≡ b → j < b → j < a
    within e p = omega arith

length-clear : (i : ℕ) (o : Objects) → length (clear i o).handles ≡ length o.handles
unfolding clear
length-clear i o = length-set i none o.handles

cleared : (i : ℕ) (o : Objects) → i < length o.handles → get i (clear i o).handles ≡ none
unfolding clear
cleared i o k = get-set i none o.handles k

moved-total :
    (h i j : ℕ) (o : Objects)
    → i < length o.handles
    → j < length o.handles
    → total h (take_over i j (clear i o)) ≡ total h o
moved-total h i j o k l =
    let n = length-clear i o in
    take_over-total h i j (clear i o) (omega arith) (omega arith) (cleared i o k)
    ∙ clear-total h i o k

step-total :
    (h : ℕ) (s : Step) (o : Objects)
    → IsWithin (length o.handles) s
    → total h (step s o) ≡ handed h s + total h o
unfolding step
step-total h (make i x) o k =
    let n = length-clear i o in
    let c = clear-total h i o k in
    let e = held-set h i x (clear i o).handles (omega arith) in
    let z = ap (is_held h) (cleared i o k) in omega arith
step-total h (move_construct i j) o (k, l) = let e = moved-total h i j o k l in omega arith
step-total h (move_assign i j) o (k, l) =
    let e = moved-total h i j o k l in
    if-elim {A = Objects} (λ x. total h x ≡ 0 + total h o) (i == j) (omega arith) (omega arith)
step-total h (destroy i) o k = let e = clear-total h i o k in omega arith

length-step : (s : Step) (o : Objects) → length (step s o).handles ≡ length o.handles
unfolding step clear take_over
length-step (make i x) o = length-set i x _ ∙ length-set i none o.handles
length-step (move_construct i j) o =
    length-set j none _ ∙ length-set i _ _ ∙ length-set i none o.handles
length-step (move_assign i j) o =
    if-elim {A = Objects} (λ x. length x.handles ≡ length o.handles) (i == j) refl
      (length-set j none _ ∙ length-set i _ _ ∙ length-set i none o.handles)
length-step (destroy i) o = length-set i none o.handles

steps-total :
    (h : ℕ) (ss : List Step) (o : Objects)
    → All (IsWithin (length o.handles)) ss
    → total h (steps ss o) ≡ handed_out h ss + total h o
unfolding steps
steps-total h [] o k = omega arith
steps-total h (s ∷ ss) o (k, ks) =
    let e = step-total h s o k in
    let f =
      steps-total h ss (step s o) (subst (λ n. All (IsWithin n) ss) (sym (length-step s o)) ks) in
    omega arith

-- No object owns a handle.
abbrev pub IsIdle : Objects → Type 0
IsIdle o = All (λ x. x ≡ none) o.handles

held-idle : (h : ℕ) (xs : List (Option ℕ)) → All (λ x. x ≡ none) xs → held h xs ≡ 0
held-idle h [] k = refl
held-idle h (x ∷ xs) (e, k) = let a = ap (is_held h) e in let b = held-idle h xs k in omega arith

-- Over any run of constructions, moves, assignments, also of an object to itself, and destructions, from
-- objects that own nothing: once no object owns a handle any more, each handle has been freed exactly as
-- often as it was handed to an object. So none is lost and none is freed twice.
pub steps-freed :
    (h : ℕ) (ss : List Step) (o : Objects)
    → IsIdle o
    → o.freed ≡ []
    → All (IsWithin (length o.handles)) ss
    → IsIdle (steps ss o)
    → count h (steps ss o).freed ≡ handed_out h ss
steps-freed h ss o idle fresh within ended =
    let e = steps-total h ss o within in
    let a = held-idle h o.handles idle in
    let b = held-idle h (steps ss o).handles ended in let c = ap (count h) fresh in omega arith
