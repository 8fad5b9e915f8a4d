-- ===== src/Pg/Params.antt =====
-- `pg::Params` of include/pg.h and src/pg.cpp: the texts that libpq gets for the parameters of a statement. The
-- tests on a floating-point number and `std::format` of a finite one are parameters.
use fronius_bridge.Prelude.{
  ◌≡◌, refl, ap, ◌∙◌, String, Bool, false, Option, none, some, List, [], ◌∷◌, ◌++◌, map, to_string,
  if◌then◌else◌, has_value, arith,
}
use fronius_bridge.Pg.Statements.{Param, null, text, integer, flag, number, time_ms}
use fronius_bridge.Pg.Time.{time_from_millis}

pub record FloatText (F : Type 0) : Type 0 where
  pub is_nan : F → Bool
  pub is_inf : F → Bool
  pub is_negative : F → Bool
  pub format : F → String

-- `cells_`: no text is SQL NULL.
abbrev pub Cells : Type 0
Cells = List (Option String)

append_assoc : (xs ys zs : Cells) → (xs ++ ys) ++ zs ≡ xs ++ (ys ++ zs)
append_assoc [] ys zs = refl
append_assoc (x ∷ xs) ys zs = ap (λ l. x ∷ l) (append_assoc xs ys zs)

module _ {F : Type 0} (floats : FloatText F) where
  open floats use {is_nan, is_inf, is_negative, format}

  -- `addFloat`
  unfoldable pub float_text : F → String
  float_text x =
      if is_nan x
      then "NaN"
      else if is_inf x
      then (if is_negative x then "-Infinity" else "Infinity")
      else format x

  -- The `add` that takes a value of the parameter's type.
  unfoldable pub cell_of : Param F → Option String
  unfolding float_text time_from_millis
  cell_of null = none
  cell_of (text s) = some s
  cell_of (integer n) = some (to_string n)
  cell_of (flag b) = some (if b then "t" else "f")
  cell_of (number x) = some (float_text x)
  cell_of (time_ms ms) = some (time_from_millis ms)

  unfoldable pub add : Param F → Cells → Cells
  unfolding cell_of
  add p cells = cells ++ cell_of p ∷ []

  unfoldable pub add_all : List (Param F) → Cells → Cells
  unfolding add
  add_all [] cells = cells
  add_all (p ∷ ps) cells = add_all ps (add p cells)

  -- The constructor from a list of values
  unfoldable pub params : List (Param F) → Cells
  unfolding add_all
  params ps = add_all ps []

  add_all-map : (ps : List (Param F)) (cells : Cells) → add_all ps cells ≡ cells ++ map cell_of ps
  unfolding add_all add
  add_all-map [] cells = append-nil cells
    where
      append-nil : (xs : Cells) → xs ≡ xs ++ []
      append-nil [] = refl
      append-nil (x ∷ xs) = ap (λ l. x ∷ l) (append-nil xs)
  add_all-map (p ∷ ps) cells =
      add_all-map ps (cells ++ cell_of p ∷ [])
      ∙ append_assoc cells (cell_of p ∷ []) (map cell_of ps)

  -- libpq gets one parameter for each value, in the order of the values,
  pub params-map : (ps : List (Param F)) → params ps ≡ map cell_of ps
  unfolding params
  params-map ps = add_all-map ps []

  -- and SQL NULL for none but a null.
  pub cell_of-null : (p : Param F) → has_value (cell_of p) ≡ false → p ≡ null
  unfolding cell_of
  cell_of-null null h = refl
  cell_of-null (text s) h = absurd (ground arith)
  cell_of-null (integer n) h = absurd (ground arith)
  cell_of-null (flag b) h = absurd (ground arith)
  cell_of-null (number x) h = absurd (ground arith)
  cell_of-null (time_ms ms) h = absurd (ground arith)
