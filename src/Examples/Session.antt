-- ===== src/Examples/Session.antt =====
-- The worker with a server that accepts every statement, and with one that refuses an inverter without
-- phases, as the schema's check does.
use fronius_bridge.Prelude.{
  ◌≡◌, ◌≢◌, refl, ℕ, pos, String, Bool, true, false, none, some, List, [], ◌∷◌, ok, err, arith,
  find, text_eq,
}
use fronius_bridge.Devices.{InverterDevice}
use fronius_bridge.Db.Errors.{query, make_with_state}
use fronius_bridge.Db.Conn.{Command, statement, Reply, failed, Server, in_transaction, exec, commit}
use fronius_bridge.Db.Migrator.Steps.{
  validate_migration_list, migrate, current_version, bring_up, apply_pending, apply_one,
}
use fronius_bridge.Pg.Statements.{Sql, execute, upsert_inverter}
use fronius_bridge.Pg.Inserts.{insert_inverter}
use fronius_bridge.Pg.Client.{
  CachedInverter, Client, Setup, inverter_device, inverter_values, Event, on_conn, ◌then◌, update,
  connected_only, done, unless_checked,
}
use fronius_bridge.Pg.Events.{
  blank_inverter, prepare_schema, process_payload, upsert_inverter_device,
}
use fronius_bridge.Pg.Session.{connect_and_prepare, replay_inverters, replay_meters}
use fronius_bridge.Pg.Recovery.Device.{process_payload-values}
use fronius_bridge.Pg.Recovery.Reconnect.{connect_and_prepare-refused}
use fronius_bridge.Pg.Queue.{enqueue}
use fronius_bridge.Backoff.{delays}
use fronius_bridge.Pg.Worker.{
  World, connecting, works, arrives, here, there, work, work_at, after_setup,
}
use fronius_bridge.Pg.Worker.Invariant.{IsSound, Reaches-IsSound}
use fronius_bridge.Examples.Database.{willing, answer, status_after, floats, migrations, values}

abbrev setup : Setup ℕ
setup = record {
  auto_migrate = true;
  public_migrations = migrations;
  inverter_migrations = migrations;
  meter_migrations = migrations;
  registry = [];
  site = none;
}

abbrev device : InverterDevice ℕ
device = record {
  id = pos 1;
  manufacturer = "Fronius";
  model = "Symo";
  serial_number = "4711";
  fw_version = "3";
  data_manager_version = "3";
  register_model = "float";
  is_hybrid = false;
  phases = pos 3;
  inputs = pos 2;
  slave_id = pos 1;
  ac_power_apparent = 10000;
}

abbrev client : Bool → List (String × CachedInverter ℕ) → Client ℕ
client connected cache = record {
  connected = connected;
  extensions_checked = true;
  cached_inverters = cache;
  cached_meters = [];
  sent = [];
}

upserted :
    (process_payload willing floats setup "roof" (inverter_device device) (client true [])).1
    ≡ ok tt
unfolding process_payload connected_only ◌then◌ find on_conn migrate validate_migration_list
    in_transaction exec current_version bring_up apply_pending apply_one commit update
upserted = refl

process_payload-values_example :
    process_payload willing floats setup "roof"
      (inverter_values values)
      (process_payload willing floats setup "roof" (inverter_device device) (client true [])).0
    ≡ on_conn
        (insert_inverter willing floats "roof" false (pos 3) (pos 2) values)
        (process_payload willing floats setup "roof" (inverter_device device) (client true [])).0
process_payload-values_example =
    process_payload-values willing floats setup "roof" device values (client true []) upserted

-- A server that never accepts an inverter's row.
abbrev strict_answer : Command (Sql ℕ) → Reply
strict_answer (statement (execute upsert_inverter schema row)) = failed (some "23514")
strict_answer c = answer c

abbrev strict : Server (Sql ℕ)
strict = record {
  reply = λ sent c. strict_answer c;
  tx_status = status_after;
  unseen_commit = λ sent. false;
}

prepared :
    (on_conn (prepare_schema strict floats setup migrations "roof") (client true [])).1 ≡ ok tt
unfolding on_conn migrate validate_migration_list in_transaction exec current_version bring_up
    apply_pending apply_one commit
prepared = refl

refused :
    (upsert_inverter_device strict floats setup "roof" device (client true [])).1
    ≡ err (make_with_state query "23514")
unfolding upsert_inverter_device connected_only ◌then◌ find on_conn migrate validate_migration_list
    in_transaction exec current_version bring_up apply_pending apply_one commit update
refused = refl

abbrev blank_cache : List (String × CachedInverter ℕ)
blank_cache = ("roof", blank_inverter strict floats setup) ∷ []

connect_and_prepare-refused_example :
    (connect_and_prepare strict floats setup (client false blank_cache)).1 ≢ ok tt
connect_and_prepare-refused_example =
    connect_and_prepare-refused strict floats setup [] [] "roof"
      (blank_inverter strict floats setup) (client false blank_cache) refl
      (λ sent. (make_with_state query "23514", refl))

set_up : (connect_and_prepare willing floats setup (client false [])).1 ≡ ok tt
unfolding connect_and_prepare unless_checked ◌then◌ replay_inverters replay_meters done
set_up = refl

abbrev event : Event ℕ
event = record { device_name = "roof"; payload = inverter_device device }

abbrev world : World ℕ
world = record {
  place = connecting;
  running = true;
  failed = false;
  backoff = pos 5;
  client = client false [];
  events = record { queue = []; dropped_since_last_log = 0; reported = 0 };
}

-- The worker sets up while an event arrives.
Reaches-IsSound_example :
    IsSound 5 320 10 (record (work willing floats setup (delays 5 320 true) world) {
      events = record { queue = event ∷ []; dropped_since_last_log = 0; reported = 0 };
    })
unfolding enqueue work_at after_setup connect_and_prepare unless_checked ◌then◌ replay_inverters
    replay_meters done
Reaches-IsSound_example =
    Reaches-IsSound willing floats setup 5 320 true 10 100 world
      (record (work willing floats setup (delays 5 320 true) world) {
        events = record { queue = event ∷ []; dropped_since_last_log = 0; reported = 0 };
      })
      (omega arith) (omega arith) (tt, λ e. cc, omega arith, (5, refl, omega arith, omega arith))
      (there (there here works) (arrives event))
