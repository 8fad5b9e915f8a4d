-- ===== src/Db/Migrator/Script.antt =====
-- Which statements a successful migration has sent.
use fronius_bridge.Prelude.{
  ◌≡◌, refl, sym, ◌∙◌, ap, Bool, true, false, none, List, [], ◌∷◌, ℤ, String, ltb_ℤ, leb_ℤ, ◌==◌,
  int_eq, arith, All, ok, if◌then◌else◌, inl, inr, Bool-cases, ◌≤ℤ◌,
}
use fronius_bridge.Db.Errors.{migration}
use fronius_bridge.Db.Conn.{
  Command, begin_tx, commit_tx, statement, Server, Work, Cell, ◌>>=◌, ◌>>◌, send, close_tx,
  in_transaction, commit,
}
use fronius_bridge.Db.Conn.Sends.{push_all, >>=-ok, Sends, nothing-Sends, >>-Sends, exec-Sends}
use fronius_bridge.Db.Migrator.Steps.{
  Migration, Ddl, advisory_lock, create_schema, set_search_path, create_version_table,
  migration_body, insert_version, current_version, with_context, run_ddl, apply_one, apply_pending,
  bring_up, migrate, lift, validate_migration_list, last_version,
}
use fronius_bridge.Db.Migrator.Lists.{Rising-last, validate_migration_list_iff}

-- The migrations that a schema at version `current` lacks.
abbrev pub pending : ℤ → List Migration → List Migration
pending current [] = []
pending current (m ∷ ms) =
    if leb_ℤ m.version current then pending current ms else m ∷ pending current ms

-- Each body, then its row in the ledger.
abbrev pub script : List Migration → List Ddl
script [] = []
script (m ∷ ms) = migration_body m ∷ insert_version m.version m.name ∷ script ms

module _ {S : Type 0} (srv : Server S) (ddl : Ddl → S) where
  with_context-Sends :
      (w : Work S (Unit {0})) (ds : List Ddl)
      → Sends ddl w ds
      → Sends ddl (with_context srv ddl w) ds
  unfolding Sends
  with_context-Sends w ds h sent e = h sent (ground arith)

  apply_one-Sends : (m : Migration) → Sends ddl (apply_one srv ddl m) (script (m ∷ []))
  unfolding apply_one
  apply_one-Sends m =
      >>-Sends ddl _ _ (migration_body m ∷ []) (insert_version m.version m.name ∷ [])
        (with_context-Sends _ _ (exec-Sends srv ddl migration (migration_body m)))
        (with_context-Sends _ _ (exec-Sends srv ddl migration (insert_version m.version m.name)))

  if-Sends :
      (b : Bool) (v w : Work S (Unit {0})) (p q : List Migration)
      → Sends ddl v (script p)
      → Sends ddl w (script q)
      → Sends ddl (if b then v else w) (script (if b then p else q))
  if-Sends true v w p q h g = h
  if-Sends false v w p q h g = g

  apply_pending-Sends :
      (current : ℤ) (ms : List Migration)
      → Sends ddl (apply_pending srv ddl current ms) (script (pending current ms))
  unfolding apply_pending
  apply_pending-Sends current [] = nothing-Sends ddl
  apply_pending-Sends current (m ∷ ms) =
      let rest = apply_pending-Sends current ms in
      if-Sends (leb_ℤ m.version current) _ _ (pending current ms) (m ∷ pending current ms) rest
        (>>-Sends ddl _ _ (script (m ∷ [])) (script (pending current ms)) (apply_one-Sends m) rest)

  -- The statements up to the ledger's table.
  abbrev pub opening : String → List Ddl
  opening schema =
      advisory_lock ∷ create_schema schema ∷ set_search_path schema ∷ create_version_table ∷ []

  -- What `migrate` sends inside of its transaction once the version is known.
  abbrev pub closing : ℤ → List Migration → List (Command S) → List (Command S)
  closing current ms sent = commit_tx ∷ push_all ddl (script (pending current ms)) sent

  nothing_pending :
      (current : ℤ) (ms : List Migration) (top : ℤ)
      → All (λ m. m.version ≤ℤ top) ms
      → top ≤ℤ current
      → pending current ms ≡ []
  nothing_pending current [] top h g = refl
  nothing_pending current (m ∷ ms) top (h, hs) g =
      ground (arith, nothing_pending current ms top hs g)

  commit_sent : (sent : List (Command S)) → (commit srv migration sent).0 ≡ commit_tx ∷ sent
  unfolding commit send
  commit_sent sent = ground arith

  bring_up_sent :
      (current : ℤ) (ms : List Migration) (sent : List (Command S))
      → All (λ m. m.version ≤ℤ last_version ms) ms
      → (bring_up srv ddl ms (last_version ms) current sent).1 ≡ ok tt
      → (bring_up srv ddl ms (last_version ms) current sent).0 ≡ closing current ms sent
  unfolding bring_up
  bring_up_sent current ms sent h e = elim (Bool-cases (current == last_version ms)) [
    | inl a ↦
        rw (a, bring_up, nothing_pending current ms (last_version ms) h (ground arith))
          (commit_sent sent)
    | inr a ↦ elim (Bool-cases (ltb_ℤ (last_version ms) current)) [
      | inl b ↦
          rw (a, bring_up, b, nothing_pending current ms (last_version ms) h (ground arith))
            (commit_sent sent)
      | inr b ↦
          let (_, f, same) =
            >>=-ok (apply_pending srv ddl current ms) (λ _. commit srv migration) sent
              (rw (a, bring_up, b) at e) in
          rw (a, bring_up, b)
            (ap (λ p. p.0) same
              ∙ commit_sent (apply_pending srv ddl current ms sent).0
              ∙ ap (λ l. commit_tx ∷ l) (unfold Sends in apply_pending-Sends current ms sent f))
    ]
  ]

  run_then :
      (d : Ddl) (k : Work S (Unit {0})) (sent : List (Command S))
      → ((run_ddl srv ddl d >> k) sent).1 ≡ ok tt
      → (run_ddl srv ddl d >> k) sent ≡ k (statement (ddl d) ∷ sent)
  run_then d k sent e =
      let (_, f, same) = >>=-ok (run_ddl srv ddl d) (λ _. k) sent e in
      same ∙ ap k (unfold Sends in exec-Sends srv ddl migration d sent f)

  -- The steps of `migrate` inside of its transaction.
  abbrev in_tx : List Migration → String → Work S (Unit {0})
  in_tx ms schema =
      run_ddl srv ddl advisory_lock
      >> (run_ddl srv ddl (create_schema schema)
          >> (run_ddl srv ddl (set_search_path schema)
              >> (run_ddl srv ddl create_version_table
                  >> (current_version srv ddl >>= bring_up srv ddl ms (last_version ms)))))

  abbrev then_all : List Ddl → Work S (Unit {0}) → Work S (Unit {0})
  then_all [] k = k
  then_all (d ∷ ds) k = run_ddl srv ddl d >> then_all ds k

  run_all :
      (ds : List Ddl) (k : Work S (Unit {0})) (sent : List (Command S))
      → (then_all ds k sent).1 ≡ ok tt
      → then_all ds k sent ≡ k (push_all ddl ds sent)
  run_all [] k sent e = refl
  run_all (d ∷ ds) k sent e =
      let same = run_then d (then_all ds k) sent e in
      same ∙ run_all ds k (statement (ddl d) ∷ sent) (sym (ap (λ p. p.1) same) ∙ e)

  in_tx_sent :
      (ms : List Migration) (schema : String) (sent : List (Command S))
      → All (λ m. m.version ≤ℤ last_version ms) ms
      → (in_tx ms schema sent).1 ≡ ok tt
      → let start = push_all ddl (opening schema) sent in
        (current : ℤ) × ((current_version srv ddl start).1 ≡ ok current)
        × ((in_tx ms schema sent).0 ≡ closing current ms (current_version srv ddl start).0)
  in_tx_sent ms schema sent h e =
      let start = push_all ddl (opening schema) sent in
      let rest = current_version srv ddl >>= bring_up srv ddl ms (last_version ms) in
      let same = run_all (opening schema) rest sent e in
      let (current, f, g) =
        >>=-ok (current_version srv ddl) (bring_up srv ddl ms (last_version ms)) start
          (sym (ap (λ p. p.1) same) ∙ e) in
      let both = same ∙ g in
      (
        current,
        f,
        ap (λ p. p.0) both
            ∙ bring_up_sent current ms (current_version srv ddl start).0 h
                (sym (ap (λ p. p.1) both) ∙ e),
      )

  abbrev in_scope : List Migration → String → List (List Cell) → Work S (Unit {0})
  in_scope ms schema _ sent = let (sent', r) = in_tx ms schema sent in (close_tx srv sent', r)

  -- If `migrate` succeeds, it has sent, in one transaction, the lock, the schema, the search path and the
  -- ledger's table, has read the schema's version, and then has sent exactly the migrations above that
  -- version, in the order of the list and each followed by its ledger row, and COMMIT after them all.
  pub migrate_sent :
      (ms : List Migration) (schema : String) (sent : List (Command S))
      → (migrate srv ddl ms schema sent).1 ≡ ok tt
      → let start = push_all ddl (opening schema) (begin_tx ∷ sent) in
        (current : ℤ) × ((current_version srv ddl start).1 ≡ ok current)
        × ((migrate srv ddl ms schema sent).0
            ≡ close_tx srv (closing current ms (current_version srv ddl start).0))
  unfolding migrate in_transaction send
  migrate_sent ms schema sent e =
      let (_, v, same) =
        >>=-ok (lift (validate_migration_list ms))
          (λ _. in_transaction srv migration (in_tx ms schema)) sent e in
      let rising = (validate_migration_list_iff ms).0 v in
      let started = sym (ap (λ p. p.1) same) ∙ e in
      let (_, _, next) = >>=-ok (send srv migration begin_tx) (in_scope ms schema) sent started in
      let (current, f, g) =
        in_tx_sent ms schema (begin_tx ∷ sent) (Rising-last none ms rising.1)
          (sym (ap (λ p. p.1) next) ∙ started) in
      (current, f, ap (λ p. p.0) (same ∙ next) ∙ ap (close_tx srv) g)
