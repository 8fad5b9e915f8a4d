-- ===== src/Examples/Database.antt =====
-- A server that accepts every statement, and one that refuses the row of a blank device.
use fronius_bridge.Prelude.{
  ltb, leb, ◌+◌, ◌-◌, ◌*◌, ◌^◌, ◌≡◌, refl, ℕ, ℤ, pos, false, true, none, some, List, [], ◌∷◌, ok,
  text_eq,
}
use fronius_bridge.Devices.{InverterInput, InverterPhase, InverterValues, MeterPhase, MeterValues}
use fronius_bridge.Db.Conn.{
  Command, begin_tx, commit_tx, rollback_tx, statement, Reply, completed, link_dropped, TxStatus,
  idle, in_trans, Server, Atomic, close_tx, in_transaction, exec, commit,
}
use fronius_bridge.Db.Conn.Sends.{push_all}
use fronius_bridge.Db.Migrator.Steps.{
  Migration, probe_version_table, migrate, current_version, validate_migration_list, bring_up,
  apply_pending, apply_one,
}
use fronius_bridge.Db.Migrator.Atomicity.{migrate-Atomic}
use fronius_bridge.Db.Migrator.Script.{opening, closing, migrate_sent}
use fronius_bridge.Doubles.{Doubles}
use fronius_bridge.Pg.Statements.{Sql, migrator}
use fronius_bridge.Pg.Inserts.{exec_all, insert_inverter, insert_meter}
use fronius_bridge.Pg.Inserts.Columns.{inverter_rows, meter_rows}
use fronius_bridge.Pg.Inserts.Sent.{plain, insert_inverter_sent, insert_meter_sent}

abbrev pub status_after : {S : Type 0} → List (Command S) → TxStatus
status_after (commit_tx ∷ sent) = idle
status_after (rollback_tx ∷ sent) = idle
status_after sent = in_trans

-- A row with the number 1, but no table of versions yet.
abbrev pub answer : Command (Sql ℕ) → Reply
answer (statement (migrator probe_version_table)) = completed ((none ∷ []) ∷ [])
answer c = completed ((some (pos 1) ∷ []) ∷ [])

abbrev pub willing : Server (Sql ℕ)
willing = record {
  reply = λ sent c. answer c;
  tx_status = status_after;
  unseen_commit = λ sent. false;
}

-- A server that commits, and whose link drops before its answer to COMMIT is there.
abbrev doubtful : Server (Sql ℕ)
doubtful = record {
  reply = λ sent c. elim c [ commit_tx ↦ link_dropped | other ↦ answer other ];
  tx_status = status_after;
  unseen_commit = λ sent. true;
}

abbrev pub floats : Doubles ℕ
floats = record {
  literal = λ s. 0;
  less = ltb;
  less_eq = leb;
  add = λ a b. a + b;
  sub = λ a b. a - b;
  mul = λ a b. a * b;
  div = λ a b. a;
  abs = λ a. a;
  sqrt = λ a. a;
  hypot = λ a b. a + b;
  sin = λ a. a;
  tan = λ a. a;
  acos = λ a. a;
  round = λ a. a;
  pow_ten = λ n. 10 ^ n;
  to_single = λ x. x;
}

abbrev pub tables : Migration
tables = record { version = pos 1; name = "001_tables"; sql = "CREATE TABLE device ()" }

abbrev pub migrations : List Migration
migrations = tables ∷ []

migrate-Atomic_example : Atomic doubtful (migrate doubtful migrator migrations "roof")
migrate-Atomic_example = migrate-Atomic doubtful migrator migrations "roof"

migrated : (migrate willing migrator migrations "roof" []).1 ≡ ok tt
unfolding migrate validate_migration_list in_transaction exec current_version bring_up apply_pending
    apply_one commit
migrated = refl

migrate_sent_example :
    (current : ℤ) × ((current_version willing migrator
        (push_all migrator (opening willing migrator "roof") (begin_tx ∷ []))).1
      ≡ ok current)
    × ((migrate willing migrator migrations "roof" []).0
        ≡ close_tx willing (
            closing willing migrator current migrations
              (current_version willing migrator
                (push_all migrator (opening willing migrator "roof") (begin_tx ∷ []))).0))
migrate_sent_example = migrate_sent willing migrator migrations "roof" [] migrated

abbrev pub no_phase : InverterPhase ℕ
no_phase = record { ac_voltage = 0; ac_current = 0 }

abbrev pub no_input : InverterInput ℕ
no_input = record { dc_voltage = 0; dc_current = 0; dc_power = 0; dc_energy = 0 }

abbrev pub values : InverterValues ℕ
values = record {
  time = 7;
  ac_energy = 1;
  ac_power_active = 2;
  ac_power_apparent = 2;
  ac_power_reactive = 0;
  ac_power_factor = 1;
  phase1 = no_phase;
  phase2 = no_phase;
  phase3 = no_phase;
  ac_frequency = 50;
  dc_power = 3;
  efficiency = 1;
  input1 = no_input;
  input2 = no_input;
}

abbrev pub meter_phase : MeterPhase ℕ
meter_phase = record {
  ph_voltage = 230;
  pp_voltage = 400;
  current = 1;
  active_power = 2;
  reactive_power = 0;
  apparent_power = 2;
  power_factor = 1;
}

abbrev pub meter_reading : MeterValues ℕ
meter_reading = record {
  time = 7;
  active_energy_import = 1;
  active_energy_export = 1;
  reactive_energy_import = 0;
  reactive_energy_export = 0;
  apparent_energy_import = 1;
  apparent_energy_export = 1;
  ph_voltage = 230;
  pp_voltage = 400;
  current = 3;
  active_power = 6;
  reactive_power = 0;
  apparent_power = 6;
  power_factor = 1;
  frequency = 50;
  phase1 = meter_phase;
  phase2 = meter_phase;
  phase3 = meter_phase;
}

inserted : (insert_inverter willing floats "roof" false (pos 3) (pos 2) values []).1 ≡ ok tt
unfolding insert_inverter exec_all in_transaction exec commit
inserted = refl

insert_inverter_sent_example :
    (insert_inverter willing floats "roof" false (pos 3) (pos 2) values []).0
    ≡ close_tx willing (
        commit_tx
        ∷ push_all
            (plain willing floats)
            (inverter_rows floats "roof" false (pos 3) (pos 2) values)
            (begin_tx ∷ []))
insert_inverter_sent_example =
    insert_inverter_sent willing floats "roof" false (pos 3) (pos 2) values [] inserted

meter_inserted : (insert_meter willing floats "house" (pos 3) meter_reading []).1 ≡ ok tt
unfolding insert_meter exec_all in_transaction exec commit
meter_inserted = refl

insert_meter_sent_example :
    (insert_meter willing floats "house" (pos 3) meter_reading []).0
    ≡ close_tx willing (
        commit_tx
        ∷ push_all
            (plain willing floats)
            (meter_rows floats "house" (pos 3) meter_reading)
            (begin_tx ∷ []))
insert_meter_sent_example =
    insert_meter_sent willing floats "house" (pos 3) meter_reading [] meter_inserted
