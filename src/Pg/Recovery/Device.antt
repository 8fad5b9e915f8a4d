-- ===== src/Pg/Recovery/Device.antt =====
-- How a device's event governs the values that follow it.
use fronius_bridge.Prelude.{
  ◌≡◌, refl, sym, ap, ◌∙◌, String, Bool, true, false, none, some, find, put, find-put, text_eq, ok,
  err, Result, if◌then◌else◌,
}
use fronius_bridge.Devices.{InverterDevice, InverterValues}
use fronius_bridge.Db.Errors.{query, internal, DbError, make}
use fronius_bridge.Db.Conn.{Server, exec}
use fronius_bridge.Doubles.{Doubles}
use fronius_bridge.Pg.Statements.{Sql, execute, upsert_inverter}
use fronius_bridge.Pg.Inserts.{insert_inverter}
use fronius_bridge.Pg.Client.{
  CachedInverter, Client, Setup, Step, go_on, ◌then◌, update, on_conn, connected_only,
  inverter_values, inverter_device,
}
use fronius_bridge.Pg.Events.{
  blank_inverter, inverter_row, remember_inverter, first_sight_inverter, upsert_inverter_device,
  insert_inverter_cached, process_payload, prepare_schema,
}
use fronius_bridge.Pg.Recovery.{Keeps, go_on-Keeps, upsert_inverter_device-Keeps}
use fronius_bridge.Pg.Recovery.Reconnect.{
  then-ok, on_conn-inverters, inverters_of, connected_only-ok,
}

module _ {F : Type 0} where
  connected-if :
      (b : Bool) (x : Client F × Result DbError (Unit {0})) (c : Client F) (e : DbError)
      → (if b then x else (c, err e)).1 ≡ ok tt
      → b ≡ true
  connected-if true x c e h = refl
  connected-if false x c e h = cc

  connected-ok : (k : Step F) (c : Client F) → (connected_only k c).1 ≡ ok tt → c.connected ≡ true
  unfolding connected_only
  connected-ok k c h = connected-if c.connected (k c) c (make internal) h

  connected-run : (k : Step F) (c : Client F) → c.connected ≡ true → connected_only k c ≡ k c
  unfolding connected_only
  connected-run k c h = ap (λ b. if b then k c else (c, err (make internal))) h

  go_on-run :
      (k : Step F) (z : Client F × Result DbError (Unit {0})) → z.1 ≡ ok tt → go_on k z ≡ k z.0
  go_on-run k (c, ok tt) h = refl
  go_on-run k (c, err e) h = cc

  then-run : (m k : Step F) (c : Client F) → (m c).1 ≡ ok tt → (m then k) c ≡ k (m c).0
  unfolding ◌then◌
  then-run m k c h = go_on-run k (m c) h

  stored-err :
      (g : Client F → Client F) (z : Client F × Result DbError (Unit {0})) (e : DbError)
      → (go_on (update g) z).1 ≡ err e
      → (go_on (update g) z).0 ≡ z.0
  unfolding update
  stored-err g (c, ok u) e h = cc
  stored-err g (c, err x) e h = refl

module _ {F : Type 0} (srv : Server (Sql F)) (dbl : Doubles F) (setup : Setup F) where
  abbrev pub entry_of : InverterDevice F → CachedInverter F
  entry_of d = record { device = d; is_hybrid = d.is_hybrid; phases = d.phases; inputs = d.inputs }

  upserted-find :
      (name : String) (d : InverterDevice F) (c : Client F)
      → (upsert_inverter_device srv dbl setup name d c).1 ≡ ok tt
      → find name (upsert_inverter_device srv dbl setup name d c).0.cached_inverters
        ≡ some (entry_of d)
  unfolding upsert_inverter_device update
  upserted-find name d c h =
      let first = first_sight_inverter srv dbl setup name in
      let row =
        on_conn (exec srv query (execute upsert_inverter name (inverter_row srv dbl setup d))) in
      let store = update (remember_inverter srv dbl setup name d) in
      let body = first then row then store in
      let (_, e) = then-ok (first then row) store c (connected_only-ok body c h) in
      ap (λ z. find name z.0.cached_inverters) (connected-run body c (connected-ok body c h) ∙ e)
      ∙ find-put name (entry_of d) ((first then row) c).0.cached_inverters

  upserted-connected :
      (name : String) (d : InverterDevice F) (c : Client F)
      → (upsert_inverter_device srv dbl setup name d c).1 ≡ ok tt
      → (upsert_inverter_device srv dbl setup name d c).0.connected ≡ true
  unfolding upsert_inverter_device Keeps
  upserted-connected name d c h =
      upsert_inverter_device-Keeps srv dbl setup name d c ∙ connected-ok _ c h

  cached-insert :
      (name : String) (v : InverterValues F) (c : Client F) (ci : CachedInverter F)
      → find name c.cached_inverters ≡ some ci
      → insert_inverter_cached srv dbl setup name v c
        ≡ on_conn (insert_inverter srv dbl name ci.is_hybrid ci.phases ci.inputs v) c
  unfolding insert_inverter_cached
  cached-insert name v c ci h = rw (h, insert_inverter_cached) refl

  -- After an inverter's device event has succeeded, a values event of the same name is inserted with the
  -- phases, the inputs and the hybrid flag of that device.
  pub process_payload-values :
      (name : String) (d : InverterDevice F) (v : InverterValues F) (c : Client F)
      → (process_payload srv dbl setup name (inverter_device d) c).1 ≡ ok tt
      → process_payload srv dbl setup name
          (inverter_values v)
          (process_payload srv dbl setup name (inverter_device d) c).0
        ≡ on_conn
            (insert_inverter srv dbl name d.is_hybrid d.phases d.inputs v)
            (process_payload srv dbl setup name (inverter_device d) c).0
  unfolding process_payload
  process_payload-values name d v c h =
      let after = (upsert_inverter_device srv dbl setup name d c).0 in
      connected-run (insert_inverter_cached srv dbl setup name v) after
        (upserted-connected name d c h)
      ∙ cached-insert name v after (entry_of d) (upserted-find name d c h)

  first-blank :
      (name : String) (c : Client F)
      → find name c.cached_inverters ≡ none
      → (on_conn (prepare_schema srv dbl setup setup.inverter_migrations name) c).1 ≡ ok tt
      → (first_sight_inverter srv dbl setup name c).0.cached_inverters
        ≡ put name (blank_inverter srv dbl setup) c.cached_inverters
  unfolding first_sight_inverter update on_conn
  first-blank name c n m =
      rw (n, first_sight_inverter)
        (ap (λ z. z.0.cached_inverters)
          (then-run (on_conn (prepare_schema srv dbl setup setup.inverter_migrations name)) _ c m))

  -- The first upsert of a device, if its schema is ready and its statement fails, leaves an entry of
  -- zeros and empty texts in the cache.
  pub upsert-blank :
      (name : String) (d : InverterDevice F) (c : Client F) (e : DbError)
      → c.connected ≡ true
      → find name c.cached_inverters ≡ none
      → (on_conn (prepare_schema srv dbl setup setup.inverter_migrations name) c).1 ≡ ok tt
      → (upsert_inverter_device srv dbl setup name d c).1 ≡ err e
      → find name (upsert_inverter_device srv dbl setup name d c).0.cached_inverters
        ≡ some (blank_inverter srv dbl setup)
  unfolding upsert_inverter_device ◌then◌ Keeps
  upsert-blank name d c e h n m x =
      let first = first_sight_inverter srv dbl setup name in
      let row =
        on_conn (exec srv query (execute upsert_inverter name (inverter_row srv dbl setup d))) in
      let store = update (remember_inverter srv dbl setup name d) in
      let run = connected-run (first then row then store) c h in
      ap (λ z. find name z.0.cached_inverters) run
      ∙ ap (λ z. find name z.cached_inverters)
          (stored-err (remember_inverter srv dbl setup name d) ((first then row) c) e
            (ap (λ z. z.1) (sym run) ∙ x))
      ∙ ap (find name) (
          go_on-Keeps (inverters_of srv dbl setup) row (first c) (on_conn-inverters srv dbl setup _)
          ∙ first-blank name c n m)
      ∙ find-put name (blank_inverter srv dbl setup) c.cached_inverters
