-- ===== src/Readers/Json.antt =====
-- The JSON documents that the readers build, as ordered keys with their values before they are printed.
use fronius_bridge.Prelude.{ℕ, ℤ, String, Bool, List}

pub data Leaf (F : Type 0) : Type 0 where
  whole : ℤ → Leaf F
  unsigned : ℕ → Leaf F
  real : F → Leaf F
  words : String → Leaf F
  flag : Bool → Leaf F

abbrev pub Object : Type 0 → Type 0
Object F = List (String × Leaf F)

pub data Json (F : Type 0) : Type 0 where
  leaf : Leaf F → Json F
  texts : List String → Json F
  objects : List (Object F) → Json F

abbrev pub Document : Type 0 → Type 0
Document F = List (String × Json F)
