-- ===== src/Db/Migrator/Atomicity.antt =====
-- A migration commits as a whole or not at all.
use fronius_bridge.Prelude.{
  none, some, List, [], ◌∷◌, ℤ, pos, String, ltb_ℤ, leb_ℤ, ◌==◌, int_eq, arith, inl, inr, if-elim,
  Result-cases,
}
use fronius_bridge.Db.Errors.{migration}
use fronius_bridge.Db.Conn.{
  statement, Server, Work, Cell, first_cell, as_int, ◌>>=◌, ◌>>◌, return, send, Silent, Atomic,
}
use fronius_bridge.Db.Migrator.Steps.{
  Migration, Ddl, current_version, with_context, run_ddl, apply_one, apply_pending, bring_up,
  migrate, validate_migration_list, probe_version_table, select_version, migration_body,
  insert_version, advisory_lock, create_schema, set_search_path, create_version_table, last_version,
}
use fronius_bridge.Db.Conn.Atomicity.{
  >>=-Silent, >>=-Atomic, send-Silent, exec-Silent, commit-Atomic, in_transaction-Atomic,
  return-Silent,
}

module _ {S : Type 0} (srv : Server S) (ddl : Ddl → S) where
  after_probe :
      (c : Cell)
      → Silent srv (elim c [
        | none ↦ return (pos 0)
        | some n ↦ send srv migration (statement (ddl select_version)) >>= λ row.
            return (as_int (first_cell row))
      ])
  after_probe none = return-Silent srv (pos 0)
  after_probe (some n) =
      >>=-Silent srv (send srv migration (statement (ddl select_version))) _
        (send-Silent srv migration (ddl select_version))
        λ row. return-Silent srv (as_int (first_cell row))

  current_version-Silent : Silent srv (current_version srv ddl)
  unfolding current_version
  current_version-Silent =
      >>=-Silent srv (send srv migration (statement (ddl probe_version_table))) _
        (send-Silent srv migration (ddl probe_version_table)) λ reg. after_probe (first_cell reg)

  with_context-Silent : (w : Work S (Unit {0})) → Silent srv w → Silent srv (with_context srv ddl w)
  unfolding Silent
  with_context-Silent w h sent = h sent

  apply_one-Silent : (m : Migration) → Silent srv (apply_one srv ddl m)
  unfolding apply_one
  apply_one-Silent m =
      >>=-Silent srv (with_context srv ddl (run_ddl srv ddl (migration_body m))) _
        (quiet (migration_body m)) λ _. quiet (insert_version m.version m.name)
    where
      quiet : (d : Ddl) → Silent srv (with_context srv ddl (run_ddl srv ddl d))
      quiet d = with_context-Silent (run_ddl srv ddl d) (exec-Silent srv migration (ddl d))

  apply_pending-Silent :
      (current : ℤ) (ms : List Migration) → Silent srv (apply_pending srv ddl current ms)
  unfolding apply_pending
  apply_pending-Silent current [] = return-Silent srv tt
  apply_pending-Silent current (m ∷ ms) =
      if-elim (Silent srv) (leb_ℤ m.version current) (apply_pending-Silent current ms) (
        >>=-Silent srv (apply_one srv ddl m) _ (apply_one-Silent m)
          (λ _. apply_pending-Silent current ms))

  bring_up-Atomic :
      (ms : List Migration) (highest current : ℤ) → Atomic srv (bring_up srv ddl ms highest current)
  unfolding bring_up
  bring_up-Atomic ms highest current =
      let done = commit-Atomic srv migration in
      if-elim (Atomic srv) (current == highest) done (
        if-elim (Atomic srv) (ltb_ℤ highest current) done (
          >>=-Atomic srv (apply_pending srv ddl current ms) _ (apply_pending-Silent current ms)
            (λ _. done)))

  migrate_body-Atomic :
      (ms : List Migration) (schema : String)
      → Atomic srv (
          run_ddl srv ddl advisory_lock
          >> (run_ddl srv ddl (create_schema schema)
              >> (run_ddl srv ddl (set_search_path schema)
                  >> (run_ddl srv ddl create_version_table
                      >> (current_version srv ddl >>= bring_up srv ddl ms (last_version ms))))))
  migrate_body-Atomic ms schema =
      let quiet = λ (d : Ddl). exec-Silent srv migration (ddl d) in
      >>=-Atomic srv (run_ddl srv ddl advisory_lock) _ (quiet advisory_lock) λ _.
        >>=-Atomic srv (run_ddl srv ddl (create_schema schema)) _ (quiet (create_schema schema))
          λ _.
            >>=-Atomic srv (run_ddl srv ddl (set_search_path schema)) _
              (quiet (set_search_path schema))
              λ _.
                >>=-Atomic srv (run_ddl srv ddl create_version_table) _ (quiet create_version_table)
                  λ _.
                    >>=-Atomic srv (current_version srv ddl) _ current_version-Silent
                      (bring_up-Atomic ms (last_version ms))

  -- Whatever the server answers: if `migrate` succeeds, the server has committed exactly one transaction. If it
  -- fails, the server has committed none, also where a migration's SQL or its ledger row is what fails, unless
  -- the link was lost at the COMMIT; then it has committed at most one.
  pub migrate-Atomic :
      (ms : List Migration) (schema : String) → Atomic srv (migrate srv ddl ms schema)
  unfolding Atomic migrate
  migrate-Atomic ms schema sent = elim (Result-cases (validate_migration_list ms)) [
    | inl (u, e) ↦
        rw (e, migrate, ◌>>=◌)
          (in_transaction-Atomic srv migration _ (migrate_body-Atomic ms schema) sent)
    | inr (x, e) ↦ rw (e, migrate, ◌>>=◌) (omega arith)
  ]
