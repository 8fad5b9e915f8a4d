-- ===== src/Pg/Statements.antt =====
-- The statements that the client sends and their parameters. A constructor of `Template` is one SQL
-- text; a schema's name in it is the device's name.
use fronius_bridge.Prelude.{ℕ, ℤ, String, Bool, List}
use fronius_bridge.Db.Migrator.Steps.{Ddl}

pub data Template : Type 0 where
  upsert_registry delete_stale upsert_site : Template
  upsert_inverter inverter_sample inverter_phase inverter_input : Template
  upsert_meter meter_sample meter_phase : Template

-- A value that is bound to a statement; Pg.Params gives it its text. A time is in milliseconds since the
-- epoch.
pub data Param (F : Type 0) : Type 0 where
  null : Param F
  text : String → Param F
  integer : ℤ → Param F
  flag : Bool → Param F
  number : F → Param F
  time_ms : ℕ → Param F

pub data Sql (F : Type 0) : Type 0 where
  migrator : Ddl → Sql F
  execute : Template → (schema : String) → List (Param F) → Sql F
