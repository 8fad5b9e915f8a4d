-- ===== src/Db/Migrator/Steps.antt =====
-- The operations of `SchemaMigrator`. `S` is the type of the statements that the program sends, with
-- `ddl` for those of the migrator; each constructor of `Ddl` is one SQL text of the source.
use fronius_bridge.Prelude.{
  Bool, true, false, Option, none, some, List, [], ◌∷◌, ℤ, pos, String, ltb_ℤ, leb_ℤ, ◌==◌, int_eq,
  text_eq, Result, ok, err, if◌then◌else◌,
}
use fronius_bridge.Db.Errors.{Kind, protocol, migration, internal, DbError, make, make_with_state}
use fronius_bridge.Db.Conn.{
  statement, Server, Work, first_cell, as_int, is_empty, ◌>>=◌, ◌>>◌, return, fail, send, exec,
  in_transaction, commit,
}

pub record Migration : Type 0 where
  pub version : ℤ
  pub name : String
  pub sql : String

pub data Ddl : Type 0 where
  select_extension : (name : String) → Ddl
  advisory_lock : Ddl
  create_schema : (schema : String) → Ddl
  set_search_path : (schema : String) → Ddl
  create_version_table : Ddl
  probe_version_table : Ddl
  select_version : Ddl
  migration_body : Migration → Ddl
  insert_version : ℤ → String → Ddl

abbrev pub is_protocol : Kind → Bool
is_protocol protocol = true
is_protocol _ = false

-- `withMigrationContext`
unfoldable pub with_migration_context : DbError → DbError
with_migration_context e =
    if is_protocol e.kind
    then e
    else elim e.sqlstate [ none ↦ make migration | some s ↦ make_with_state migration s ]

abbrev pub not_above : Option ℤ → ℤ → Bool
not_above none v = false
not_above (some p) v = leb_ℤ v p

unfoldable pub validate_from : Option ℤ → List Migration → Result DbError (Unit {0})
validate_from prev [] = ok tt
validate_from prev (m ∷ ms) =
    let rest = validate_from (some m.version) ms in
    if leb_ℤ m.version (pos 0)
    then err (make internal)
    else if not_above prev m.version
    then err (make internal)
    else if m.sql == ""
    then err (make internal)
    else rest

unfoldable pub validate_migration_list : List Migration → Result DbError (Unit {0})
unfolding validate_from
validate_migration_list [] = err (make internal)
validate_migration_list (m ∷ ms) = validate_from none (m ∷ ms)

-- `migrations.back().version`; of an empty list it is undefined, and validation refuses that.
abbrev pub last_version : List Migration → ℤ
last_version [] = pos 0
last_version (m ∷ []) = m.version
last_version (m ∷ n ∷ ms) = last_version (n ∷ ms)

abbrev pub lift : {S A : Type 0} → Result DbError A → Work S A
lift r sent = (sent, r)

module _ {S : Type 0} (srv : Server S) (ddl : Ddl → S) where
  abbrev pub run_ddl : Ddl → Work S (Unit {0})
  run_ddl d = exec srv migration (ddl d)

  unfoldable pub check_extensions : Work S (Unit {0})
  check_extensions = do
    rows ← send srv migration (statement (ddl (select_extension "timescaledb")))
    if is_empty rows then fail (make migration) else return tt

  unfoldable pub current_version : Work S ℤ
  current_version = do
    reg ← send srv migration (statement (ddl probe_version_table))
    elim (first_cell reg) [
      | none ↦ return (pos 0)
      | some c ↦ do
        row ← send srv migration (statement (ddl select_version))
        return (as_int (first_cell row))
    ]

  -- `execute` with the migration's context on an error.
  abbrev pub with_context : Work S (Unit {0}) → Work S (Unit {0})
  with_context w sent =
      let (sent', r) = w sent in
      (sent', elim r [ ok u ↦ ok tt | err e ↦ err (with_migration_context e) ])

  unfoldable pub apply_one : Migration → Work S (Unit {0})
  apply_one m = do
    with_context (run_ddl (migration_body m))
    with_context (run_ddl (insert_version m.version m.name))

  unfoldable pub apply_pending : ℤ → List Migration → Work S (Unit {0})
  apply_pending current [] = return tt
  apply_pending current (m ∷ ms) =
      let rest = apply_pending current ms in
      if leb_ℤ m.version current then rest else (apply_one m >> rest)

  -- The branches of `migrate` on the version found.
  unfoldable pub bring_up : List Migration → ℤ → ℤ → Work S (Unit {0})
  bring_up ms highest current =
      if current == highest
      then commit srv migration
      else if ltb_ℤ highest current
      then commit srv migration
      else (apply_pending current ms >> commit srv migration)

  unfoldable pub migrate : List Migration → String → Work S (Unit {0})
  migrate ms schema = do
    lift (validate_migration_list ms)
    let highest = last_version ms
    in_transaction srv migration (do
      run_ddl advisory_lock
      run_ddl (create_schema schema)
      run_ddl (set_search_path schema)
      run_ddl create_version_table
      current ← current_version
      bring_up ms highest current)

  abbrev pub judge : ℤ → ℤ → Work S (Unit {0})
  judge highest current =
      if current == highest
      then return tt
      else if ltb_ℤ highest current
      then return tt
      else fail (make migration)

  unfoldable pub verify : List Migration → String → Work S (Unit {0})
  verify ms schema = do
    lift (validate_migration_list ms)
    let highest = last_version ms
    in_transaction srv migration (do
      run_ddl advisory_lock
      run_ddl (set_search_path schema)
      current ← current_version
      commit srv migration
      judge highest current)
