-- ===== src/Pg/Inserts.antt =====
-- `insertInverterValues` and `insertMeterValues`, once the device's cache entry is at hand.
pub mod Sent
pub mod Columns
use fronius_bridge.Prelude.{
  ℕ, zero, suc, ◌+◌, ℤ, pos, pos_part, clamp, String, Bool, true, false, Option, none, some, List,
  [], ◌∷◌, ◌++◌, map, if◌then◌else◌,
}
use fronius_bridge.Devices.{InverterInput, InverterPhase, InverterValues, MeterPhase, MeterValues}
use fronius_bridge.Db.Errors.{Kind, query}
use fronius_bridge.Db.Conn.{Server, Work, ◌>>=◌, ◌>>◌, return, exec, in_transaction, commit}
use fronius_bridge.Doubles.{Doubles, scale_to_kilo}
use fronius_bridge.Pg.Statements.{
  Template, inverter_sample, inverter_phase, inverter_input, meter_sample, meter_phase, Param, null,
  text, integer, flag, number, time_ms, Sql, migrator, execute,
}

-- `for (int i = 0; i < n; ++i)` over an array: its first n entries with their ids, from `id`.
abbrev pub rows {ℓ κ} : {A : Type ℓ} {B : Type κ} → (ℤ → A → B) → ℕ → ℕ → List A → List B
rows f id zero xs = []
rows f id (suc n) [] = []
rows f id (suc n) (x ∷ xs) = f (pos id) x ∷ rows f (suc id) n xs

module _ {F : Type 0} (srv : Server (Sql F)) (dbl : Doubles F) where
  open dbl use {to_single}

  abbrev pub single : F → Param F
  single x = number (to_single x)

  abbrev pub kilo : F → Param F
  kilo x = number (scale_to_kilo dbl x)

  unfoldable pub exec_all : List (Sql F) → Work (Sql F) (Unit {0})
  exec_all [] = return tt
  exec_all (s ∷ ss) = exec srv query s >> exec_all ss

  abbrev pub inverter_sample_row : InverterValues F → List (Param F)
  inverter_sample_row v =
      time_ms v.time
      ∷ kilo v.ac_energy
      ∷ single v.ac_power_active
      ∷ single v.ac_power_apparent
      ∷ single v.ac_power_reactive
      ∷ single v.ac_power_factor
      ∷ single v.ac_frequency
      ∷ single v.dc_power
      ∷ single v.efficiency
      ∷ []

  abbrev pub inverter_phase_row : ℕ → ℤ → InverterPhase F → List (Param F)
  inverter_phase_row ts i p =
      time_ms ts ∷ integer i ∷ single p.ac_voltage ∷ single p.ac_current ∷ []

  -- The energy of an input is NULL for a hybrid inverter.
  abbrev pub inverter_input_row : Bool → ℕ → ℤ → InverterInput F → List (Param F)
  inverter_input_row hybrid ts i p =
      time_ms ts
      ∷ integer i
      ∷ single p.dc_voltage
      ∷ single p.dc_current
      ∷ single p.dc_power
      ∷ (if hybrid then null else kilo p.dc_energy)
      ∷ []

  abbrev pub inverter_phase_rows : String → InverterValues F → ℤ → List (Sql F)
  inverter_phase_rows name v phases =
      rows (λ i p. execute inverter_phase name (inverter_phase_row v.time i p)) 1
        (pos_part (clamp phases (pos 1) (pos 3))) (v.phase1 ∷ v.phase2 ∷ v.phase3 ∷ [])

  abbrev pub inverter_input_rows : String → InverterValues F → Bool → ℤ → List (Sql F)
  inverter_input_rows name v hybrid inputs =
      rows (λ i p. execute inverter_input name (inverter_input_row hybrid v.time i p)) 1
        (pos_part (clamp inputs (pos 1) (pos 2))) (v.input1 ∷ v.input2 ∷ [])

  unfoldable pub insert_inverter :
      String → (hybrid : Bool) (phases inputs : ℤ) → InverterValues F → Work (Sql F) (Unit {0})
  insert_inverter name hybrid phases inputs v = in_transaction srv query (do
    exec srv query (execute inverter_sample name (inverter_sample_row v))
    exec_all (inverter_phase_rows name v phases)
    exec_all (inverter_input_rows name v hybrid inputs)
    commit srv query)

  abbrev pub meter_sample_row : MeterValues F → List (Param F)
  meter_sample_row v =
      time_ms v.time
      ∷ kilo v.active_energy_import
      ∷ kilo v.active_energy_export
      ∷ kilo v.apparent_energy_import
      ∷ kilo v.apparent_energy_export
      ∷ kilo v.reactive_energy_import
      ∷ kilo v.reactive_energy_export
      ∷ single v.active_power
      ∷ single v.apparent_power
      ∷ single v.reactive_power
      ∷ single v.power_factor
      ∷ single v.frequency
      ∷ single v.ph_voltage
      ∷ single v.pp_voltage
      ∷ single v.current
      ∷ []

  abbrev pub meter_phase_row : ℕ → ℤ → MeterPhase F → List (Param F)
  meter_phase_row ts i p =
      time_ms ts
      ∷ integer i
      ∷ single p.active_power
      ∷ single p.apparent_power
      ∷ single p.reactive_power
      ∷ single p.power_factor
      ∷ single p.ph_voltage
      ∷ single p.pp_voltage
      ∷ single p.current
      ∷ []

  abbrev pub meter_phase_rows : String → MeterValues F → ℤ → List (Sql F)
  meter_phase_rows name v phases =
      rows (λ i p. execute meter_phase name (meter_phase_row v.time i p)) 1
        (pos_part (clamp phases (pos 1) (pos 3))) (v.phase1 ∷ v.phase2 ∷ v.phase3 ∷ [])

  unfoldable pub insert_meter : String → (phases : ℤ) → MeterValues F → Work (Sql F) (Unit {0})
  insert_meter name phases v = in_transaction srv query (do
    exec srv query (execute meter_sample name (meter_sample_row v))
    exec_all (meter_phase_rows name v phases)
    commit srv query)
