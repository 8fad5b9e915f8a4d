-- ===== src/Db/Migrator/Lists.antt =====
-- Well-formed migration lists.
use fronius_bridge.Prelude.{
  ◌≡◌, ◌≢◌, ◌↔◌, Option, none, some, List, [], ◌∷◌, ℤ, pos, ◌<ℤ◌, ◌≤ℤ◌, arith, ok, All, text_eq,
}
use fronius_bridge.Db.Migrator.Steps.{
  Migration, validate_from, validate_migration_list, last_version,
}

abbrev pub Above : Option ℤ → ℤ → Type 0
Above none v = Unit
Above (some p) v = p <ℤ v

-- Versions are positive and rise, and every body has text.
abbrev pub Rising : Option ℤ → List Migration → Type 0
Rising prev [] = Unit
Rising prev (m ∷ ms) =
    (pos 0 <ℤ m.version) × Above prev m.version × (m.sql ≢ "") × Rising (some m.version) ms

pub validate_from_iff :
    (prev : Option ℤ) (ms : List Migration) → (validate_from prev ms ≡ ok tt) ↔ Rising prev ms
unfolding validate_from
validate_from_iff prev [] = ground arith
validate_from_iff none (m ∷ ms) =
    ground (arith, validate_from_iff (some m.version) ms, text_eq.beq_iff m.sql "")
validate_from_iff (some p) (m ∷ ms) =
    ground (arith, validate_from_iff (some m.version) ms, text_eq.beq_iff m.sql "")

-- A list is accepted exactly if it is not empty, its versions are positive and strictly increasing, and
-- no body is empty.
pub validate_migration_list_iff :
    (ms : List Migration) → (validate_migration_list ms ≡ ok tt) ↔ (ms ≢ []) × Rising none ms
unfolding validate_migration_list
validate_migration_list_iff [] = ground arith
validate_migration_list_iff (m ∷ ms) = ground (arith, validate_from_iff none (m ∷ ms))

-- No version of an accepted list is above the last one.
pub Rising-last :
    (prev : Option ℤ) (ms : List Migration)
    → Rising prev ms
    → All (λ m. m.version ≤ℤ last_version ms) ms
Rising-last prev [] h = tt
Rising-last prev (m ∷ []) h = omega arith
Rising-last prev (m ∷ n ∷ ms) (p, a, s, r) =
    let rest = Rising-last (some m.version) (n ∷ ms) r in (omega arith, rest)
