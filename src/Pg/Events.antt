-- ===== src/Pg/Events.antt =====
-- `processEvent` of `PostgresClient` and what it calls. `srv` stands for PostgreSQL, `setup` for the
-- program's configuration and the migrations that its build embeds.
use fronius_bridge.Prelude.{
  ℤ, pos, String, false, none, some, List, [], ◌∷◌, ◌==◌, text_eq, ltb_ℤ, find, put, if◌then◌else◌,
  ok, err,
}
use fronius_bridge.Devices.{InverterDevice, InverterValues, MeterDevice, MeterValues}
use fronius_bridge.Db.Errors.{query, make}
use fronius_bridge.Db.Conn.{Server, Work, exec}
use fronius_bridge.Db.Migrator.Steps.{Migration, migrate, verify}
use fronius_bridge.Doubles.{Doubles, zero_double}
use fronius_bridge.Pg.Statements.{
  upsert_inverter, upsert_meter, Param, null, text, integer, flag, number, Sql, migrator, execute,
}
use fronius_bridge.Pg.Inserts.{insert_inverter, insert_meter}
use fronius_bridge.Pg.Client.{
  CachedInverter, CachedMeter, Client, Setup, Payload, inverter_device, meter_device,
  inverter_values, meter_values, Event, Step, ◌then◌, update, on_conn, connected_only,
}

module _ {F : Type 0} (srv : Server (Sql F)) (dbl : Doubles F) (setup : Setup F) where
  open dbl use {to_single}
  open setup use {
    auto_migrate, public_migrations, inverter_migrations, meter_migrations, registry, site,
  }

  abbrev pub blank_inverter : CachedInverter F
  blank_inverter = record {
    device = record {
      id = pos 0;
      manufacturer = "";
      model = "";
      serial_number = "";
      fw_version = "";
      data_manager_version = "";
      register_model = "";
      is_hybrid = false;
      phases = pos 0;
      inputs = pos 0;
      slave_id = pos 0;
      ac_power_apparent = zero_double dbl;
    };
    is_hybrid = false;
    phases = pos 0;
    inputs = pos 0;
  }

  abbrev pub blank_meter : CachedMeter
  blank_meter = record {
    device = record {
      id = pos 0;
      manufacturer = "";
      model = "";
      serial_number = "";
      fw_version = "";
      options = "";
      data_manager_version = "";
      register_model = "";
      phases = pos 0;
      inputs = pos 0;
      slave_id = pos 0;
    };
    phases = pos 0;
  }

  abbrev pub prepare_schema : List Migration → String → Work (Sql F) (Unit {0})
  prepare_schema ms schema =
      if auto_migrate then migrate srv migrator ms schema else verify srv migrator ms schema

  abbrev pub inverter_row : InverterDevice F → List (Param F)
  inverter_row d =
      text d.serial_number
      ∷ text d.manufacturer
      ∷ text d.model
      ∷ text d.fw_version
      ∷ text d.data_manager_version
      ∷ text d.register_model
      ∷ integer d.id
      ∷ integer d.slave_id
      ∷ flag d.is_hybrid
      ∷ integer d.inputs
      ∷ integer d.phases
      ∷ number (to_single d.ac_power_apparent)
      ∷ []

  -- `upsertInverterDevice`. The entry of a device that is seen for the first time is blank until its
  -- statement succeeds.
  unfoldable pub first_sight_inverter : String → Step F
  first_sight_inverter name c = elim (find name c.cached_inverters) [
    | some _ ↦ (c, ok tt)
    | none ↦
        (on_conn (prepare_schema inverter_migrations name)
            then update
                (λ c. record c { cached_inverters = put name blank_inverter c.cached_inverters }))
          c
  ]

  abbrev pub remember_inverter : String → InverterDevice F → Client F → Client F
  remember_inverter name d c = record c {
    cached_inverters =
        put name
          (record { device = d; is_hybrid = d.is_hybrid; phases = d.phases; inputs = d.inputs })
          c.cached_inverters;
  }

  unfoldable pub upsert_inverter_device : String → InverterDevice F → Step F
  unfolding first_sight_inverter
  upsert_inverter_device name d = connected_only (
      first_sight_inverter name
      then on_conn (exec srv query (execute upsert_inverter name (inverter_row d)))
      then update (remember_inverter name d))

  abbrev pub text_or_null : String → Param F
  text_or_null s = if s == "" then null else text s

  abbrev pub positive_or_null : ℤ → Param F
  positive_or_null n = if ltb_ℤ (pos 0) n then integer n else null

  abbrev pub meter_row : MeterDevice → List (Param F)
  meter_row d =
      text d.serial_number
      ∷ text d.manufacturer
      ∷ text d.model
      ∷ text d.fw_version
      ∷ text_or_null d.register_model
      ∷ positive_or_null d.id
      ∷ positive_or_null d.slave_id
      ∷ integer d.phases
      ∷ []

  -- `upsertMeterDevice`
  unfoldable pub first_sight_meter : String → Step F
  first_sight_meter name c = elim (find name c.cached_meters) [
    | some _ ↦ (c, ok tt)
    | none ↦
        (on_conn (prepare_schema meter_migrations name)
            then update (λ c. record c { cached_meters = put name blank_meter c.cached_meters }))
          c
  ]

  abbrev pub remember_meter : String → MeterDevice → Client F → Client F
  remember_meter name d c = record c {
    cached_meters = put name (record { device = d; phases = d.phases }) c.cached_meters;
  }

  unfoldable pub upsert_meter_device : String → MeterDevice → Step F
  unfolding first_sight_meter
  upsert_meter_device name d = connected_only (
      first_sight_meter name
      then on_conn (exec srv query (execute upsert_meter name (meter_row d)))
      then update (remember_meter name d))

  -- `insertInverterValues` and `insertMeterValues`: values that come before their device are dropped.
  unfoldable pub insert_inverter_cached : String → InverterValues F → Step F
  insert_inverter_cached name v c = elim (find name c.cached_inverters) [
    | none ↦ (c, err (make query))
    | some ci ↦ on_conn (insert_inverter srv dbl name ci.is_hybrid ci.phases ci.inputs v) c
  ]

  abbrev pub insert_inverter_values : String → InverterValues F → Step F
  insert_inverter_values name v = connected_only (insert_inverter_cached name v)

  unfoldable pub insert_meter_cached : String → MeterValues F → Step F
  insert_meter_cached name v c = elim (find name c.cached_meters) [
    | none ↦ (c, err (make query))
    | some cm ↦ on_conn (insert_meter srv dbl name cm.phases v) c
  ]

  abbrev pub insert_meter_values : String → MeterValues F → Step F
  insert_meter_values name v = connected_only (insert_meter_cached name v)

  -- `processEvent`
  unfoldable pub process_payload : String → Payload F → Step F
  unfolding upsert_inverter_device upsert_meter_device
  process_payload name (inverter_device d) = upsert_inverter_device name d
  process_payload name (meter_device d) = upsert_meter_device name d
  process_payload name (inverter_values v) = insert_inverter_values name v
  process_payload name (meter_values v) = insert_meter_values name v

  abbrev pub process_event : Event F → Step F
  process_event ev = process_payload ev.device_name ev.payload
