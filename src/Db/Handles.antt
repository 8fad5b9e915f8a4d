-- ===== src/Db/Handles.antt =====
-- `pg::Result` and `pg::Conn` of include/pg.h as owners of a handle of libpq: construction, moves, `clear` and
-- `close`, destruction. The objects of a scope are numbered; a handle is its number, and to free it is
-- `PQclear` or `PQfinish`.
pub mod Freed
use fronius_bridge.Prelude.{
  ℕ, zero, suc, ◌+◌, ◌<◌, Bool, Option, none, some, List, [], ◌∷◌, ◌==◌, nat_eq, if◌then◌else◌,
}

-- `res_` or `conn_` of each object, and the handles that have been freed, the last first.
pub record Objects : Type 0 where
  pub handles : List (Option ℕ)
  pub freed : List ℕ

abbrev pub get : ℕ → List (Option ℕ) → Option ℕ
get i [] = none
get zero (x ∷ xs) = x
get (suc i) (x ∷ xs) = get i xs

abbrev pub set : ℕ → Option ℕ → List (Option ℕ) → List (Option ℕ)
set i x [] = []
set zero x (y ∷ ys) = x ∷ ys
set (suc i) x (y ∷ ys) = y ∷ set i x ys

abbrev pub free : Option ℕ → List ℕ → List ℕ
free none freed = freed
free (some h) freed = h ∷ freed

-- `clear`, `close`, and the destructor
unfoldable pub clear : ℕ → Objects → Objects
clear i o = record { handles = set i none o.handles; freed = free (get i o.handles) o.freed }

-- `res_ = other.res_; other.res_ = nullptr;`
unfoldable pub take_over : (i j : ℕ) → Objects → Objects
take_over i j o = record o { handles = set j none (set i (get j o.handles) o.handles) }

pub data Step : Type 0 where
  -- an object made of a handle, or by a move, where there was one before, which is destroyed
  make : (i : ℕ) → (handle : Option ℕ) → Step
  move_construct move_assign : (i j : ℕ) → Step
  destroy : (i : ℕ) → Step

unfoldable pub step : Step → Objects → Objects
unfolding clear take_over
step (make i h) o = let cleared = clear i o in record cleared { handles = set i h cleared.handles }
step (move_construct i j) o = take_over i j (clear i o)
step (move_assign i j) o = let moved = take_over i j (clear i o) in if i == j then o else moved
step (destroy i) o = clear i o

unfoldable pub steps : List Step → Objects → Objects
unfolding step
steps [] o = o
steps (s ∷ ss) o = steps ss (step s o)
