-- ===== src/Pg/Session.antt =====
-- `connectAndPrepare` and `syncRegistry` of `PostgresClient`.
use fronius_bridge.Prelude.{
  Result, String, true, false, Option, none, some, List, [], ◌∷◌, if◌then◌else◌, ok, err,
}
use fronius_bridge.Config.Types.{SiteConfig}
use fronius_bridge.Config.Buses.Derive.{DeviceRegistryEntry}
use fronius_bridge.Db.Errors.{connect, migration, DbError, make}
use fronius_bridge.Db.Conn.{
  connect_db, Reply, completed, Server, Work, ◌>>◌, return, exec, in_transaction, commit,
}
use fronius_bridge.Db.Migrator.Steps.{check_extensions}
use fronius_bridge.Doubles.{Doubles}
use fronius_bridge.Pg.Statements.{
  upsert_registry, delete_stale, upsert_site, Param, null, text, flag, number, Sql, migrator,
  execute,
}
use fronius_bridge.Pg.Client.{
  CachedInverter, CachedMeter, Client, Setup, Step, ◌then◌, done, update, on_conn, unless_checked,
}
use fronius_bridge.Pg.Events.{prepare_schema, upsert_inverter_device, upsert_meter_device}

module _ {F : Type 0} (srv : Server (Sql F)) (dbl : Doubles F) (setup : Setup F) where
  open setup use {public_migrations, registry, site}

  abbrev pub text_opt : Option String → Param F
  text_opt none = null
  text_opt (some s) = text s

  abbrev pub registry_row : DeviceRegistryEntry → List (Param F)
  registry_row e = text e.name ∷ text e.kind ∷ text_opt e.location ∷ flag e.primary ∷ []

  unfoldable pub upsert_roster : List DeviceRegistryEntry → Work (Sql F) (Unit {0})
  upsert_roster [] = return tt
  upsert_roster (e ∷ es) =
      exec srv migration (execute upsert_registry "public" (registry_row e)) >> upsert_roster es

  -- The three columns are NULL together.
  abbrev pub site_row : Option (SiteConfig F) → List (Param F)
  site_row none = null ∷ null ∷ null ∷ []
  site_row (some s) = number s.latitude ∷ number s.longitude ∷ number s.horizon ∷ []

  unfoldable pub sync_registry : Work (Sql F) (Unit {0})
  sync_registry = in_transaction srv migration (do
    upsert_roster registry
    exec srv migration (execute delete_stale "public" [])
    exec srv migration (execute upsert_site "public" (site_row site))
    commit srv migration)

  -- `conn_ = make_unique<Conn>(dsn)`; a connection that is not open is released.
  abbrev pub opened : Client F → Reply → Client F × Result DbError (Unit {0})
  opened c (completed _) = (record c { connected = true; sent = connect_db ∷ c.sent }, ok tt)
  opened c _ = (record c { connected = false; sent = connect_db ∷ c.sent }, err (make connect))

  unfoldable pub open_connection : Step F
  open_connection c = opened c (srv.reply c.sent connect_db)

  -- What happens once per process.
  unfoldable pub prepare_public : Step F
  prepare_public =
      on_conn (check_extensions srv migrator)
      then on_conn (prepare_schema srv dbl setup public_migrations "public")
      then on_conn sync_registry
      then update (λ c. record c { extensions_checked = true })

  unfoldable pub replay_inverters : List (String × CachedInverter F) → Step F
  replay_inverters [] = done
  replay_inverters ((name, cached) ∷ rest) =
      upsert_inverter_device srv dbl setup name cached.device then replay_inverters rest

  unfoldable pub replay_meters : List (String × CachedMeter) → Step F
  replay_meters [] = done
  replay_meters ((name, cached) ∷ rest) =
      upsert_meter_device srv dbl setup name cached.device then replay_meters rest

  abbrev pub replay_all_inverters : Step F
  replay_all_inverters c = replay_inverters c.cached_inverters c

  abbrev pub replay_all_meters : Step F
  replay_all_meters c = replay_meters c.cached_meters c

  unfoldable pub connect_and_prepare : Step F
  unfolding open_connection prepare_public
  connect_and_prepare =
      open_connection
      then unless_checked prepare_public
      then replay_all_inverters
      then replay_all_meters
