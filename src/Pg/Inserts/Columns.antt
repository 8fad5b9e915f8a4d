-- ===== src/Pg/Inserts/Columns.antt =====
-- The columns that the INSERT texts of `upsertInverterDevice` and `upsertMeterDevice` name, in their order, and
-- what belongs into each: the statements that an insert of values means to send, described by column.
use fronius_bridge.Prelude.{
  ℕ, zero, suc, ℤ, pos, pos_part, clamp, String, Bool, List, [], ◌∷◌, ◌++◌, map, if◌then◌else◌,
}
use fronius_bridge.Devices.{InverterValues, InverterPhase, InverterInput, MeterValues, MeterPhase}
use fronius_bridge.Doubles.{Doubles, scale_to_kilo}
use fronius_bridge.Pg.Statements.{
  Param, null, integer, number, time_ms, Sql, execute, inverter_sample, inverter_phase,
  inverter_input, meter_sample, meter_phase,
}

pub data InverterSample : Type 0 where
  time ac_energy ac_power_active ac_power_apparent ac_power_reactive ac_power_factor ac_frequency
        dc_power efficiency :
      InverterSample

abbrev pub inverter_sample_columns : List InverterSample
inverter_sample_columns =
    InverterSample.time ∷ InverterSample.ac_energy ∷ InverterSample.ac_power_active
    ∷ InverterSample.ac_power_apparent ∷ InverterSample.ac_power_reactive
    ∷ InverterSample.ac_power_factor ∷ InverterSample.ac_frequency ∷ InverterSample.dc_power
    ∷ InverterSample.efficiency ∷ []

module _ {F : Type 0} (dbl : Doubles F) where
  open dbl use {to_single}

  abbrev pub inverter_sample_value : InverterValues F → InverterSample → Param F
  inverter_sample_value v InverterSample.time = time_ms v.time
  inverter_sample_value v InverterSample.ac_energy = number (scale_to_kilo dbl v.ac_energy)
  inverter_sample_value v InverterSample.ac_power_active = number (to_single v.ac_power_active)
  inverter_sample_value v InverterSample.ac_power_apparent = number (to_single v.ac_power_apparent)
  inverter_sample_value v InverterSample.ac_power_reactive = number (to_single v.ac_power_reactive)
  inverter_sample_value v InverterSample.ac_power_factor = number (to_single v.ac_power_factor)
  inverter_sample_value v InverterSample.ac_frequency = number (to_single v.ac_frequency)
  inverter_sample_value v InverterSample.dc_power = number (to_single v.dc_power)
  inverter_sample_value v InverterSample.efficiency = number (to_single v.efficiency)

-- What belongs into the columns of a row with a number and a time.
pub data InverterPhaseSample : Type 0 where
  time phase_id ac_voltage ac_current : InverterPhaseSample

abbrev pub inverter_phase_sample_columns : List InverterPhaseSample
inverter_phase_sample_columns =
    InverterPhaseSample.time ∷ InverterPhaseSample.phase_id ∷ InverterPhaseSample.ac_voltage
    ∷ InverterPhaseSample.ac_current ∷ []

module _ {F : Type 0} (dbl : Doubles F) where
  open dbl use {to_single}

  abbrev pub inverter_phase_sample_value :
      (ts k : ℕ) → InverterPhase F → InverterPhaseSample → Param F
  inverter_phase_sample_value ts k p InverterPhaseSample.time = time_ms ts
  inverter_phase_sample_value ts k p InverterPhaseSample.phase_id = integer (pos k)
  inverter_phase_sample_value ts k p InverterPhaseSample.ac_voltage =
      number (to_single p.ac_voltage)
  inverter_phase_sample_value ts k p InverterPhaseSample.ac_current =
      number (to_single p.ac_current)

pub data InverterInputSample : Type 0 where
  time input_id dc_voltage dc_current dc_power dc_energy : InverterInputSample

abbrev pub inverter_input_sample_columns : List InverterInputSample
inverter_input_sample_columns =
    InverterInputSample.time ∷ InverterInputSample.input_id ∷ InverterInputSample.dc_voltage
    ∷ InverterInputSample.dc_current ∷ InverterInputSample.dc_power ∷ InverterInputSample.dc_energy
    ∷ []

module _ {F : Type 0} (dbl : Doubles F) where
  open dbl use {to_single}

  abbrev pub inverter_input_sample_value :
      (hybrid : Bool) (ts k : ℕ) → InverterInput F → InverterInputSample → Param F
  inverter_input_sample_value hybrid ts k p InverterInputSample.time = time_ms ts
  inverter_input_sample_value hybrid ts k p InverterInputSample.input_id = integer (pos k)
  inverter_input_sample_value hybrid ts k p InverterInputSample.dc_voltage =
      number (to_single p.dc_voltage)
  inverter_input_sample_value hybrid ts k p InverterInputSample.dc_current =
      number (to_single p.dc_current)
  inverter_input_sample_value hybrid ts k p InverterInputSample.dc_power =
      number (to_single p.dc_power)
  inverter_input_sample_value hybrid ts k p InverterInputSample.dc_energy =
      if hybrid then null else number (scale_to_kilo dbl p.dc_energy)

pub data MeterSample : Type 0 where
  time energy_active_import energy_active_export energy_apparent_import energy_apparent_export
        energy_reactive_import energy_reactive_export power_active power_apparent power_reactive
        power_factor frequency voltage_ph voltage_pp current :
      MeterSample

abbrev pub meter_sample_columns : List MeterSample
meter_sample_columns =
    MeterSample.time ∷ MeterSample.energy_active_import ∷ MeterSample.energy_active_export
    ∷ MeterSample.energy_apparent_import ∷ MeterSample.energy_apparent_export
    ∷ MeterSample.energy_reactive_import ∷ MeterSample.energy_reactive_export
    ∷ MeterSample.power_active ∷ MeterSample.power_apparent ∷ MeterSample.power_reactive
    ∷ MeterSample.power_factor ∷ MeterSample.frequency ∷ MeterSample.voltage_ph
    ∷ MeterSample.voltage_pp ∷ MeterSample.current ∷ []

module _ {F : Type 0} (dbl : Doubles F) where
  open dbl use {to_single}

  abbrev pub meter_sample_value : MeterValues F → MeterSample → Param F
  meter_sample_value v MeterSample.time = time_ms v.time
  meter_sample_value v MeterSample.energy_active_import =
      number (scale_to_kilo dbl v.active_energy_import)
  meter_sample_value v MeterSample.energy_active_export =
      number (scale_to_kilo dbl v.active_energy_export)
  meter_sample_value v MeterSample.energy_apparent_import =
      number (scale_to_kilo dbl v.apparent_energy_import)
  meter_sample_value v MeterSample.energy_apparent_export =
      number (scale_to_kilo dbl v.apparent_energy_export)
  meter_sample_value v MeterSample.energy_reactive_import =
      number (scale_to_kilo dbl v.reactive_energy_import)
  meter_sample_value v MeterSample.energy_reactive_export =
      number (scale_to_kilo dbl v.reactive_energy_export)
  meter_sample_value v MeterSample.power_active = number (to_single v.active_power)
  meter_sample_value v MeterSample.power_apparent = number (to_single v.apparent_power)
  meter_sample_value v MeterSample.power_reactive = number (to_single v.reactive_power)
  meter_sample_value v MeterSample.power_factor = number (to_single v.power_factor)
  meter_sample_value v MeterSample.frequency = number (to_single v.frequency)
  meter_sample_value v MeterSample.voltage_ph = number (to_single v.ph_voltage)
  meter_sample_value v MeterSample.voltage_pp = number (to_single v.pp_voltage)
  meter_sample_value v MeterSample.current = number (to_single v.current)

pub data MeterPhaseSample : Type 0 where
  time phase_id power_active power_apparent power_reactive power_factor voltage_ph voltage_pp
        current :
      MeterPhaseSample

abbrev pub meter_phase_sample_columns : List MeterPhaseSample
meter_phase_sample_columns =
    MeterPhaseSample.time ∷ MeterPhaseSample.phase_id ∷ MeterPhaseSample.power_active
    ∷ MeterPhaseSample.power_apparent ∷ MeterPhaseSample.power_reactive
    ∷ MeterPhaseSample.power_factor ∷ MeterPhaseSample.voltage_ph ∷ MeterPhaseSample.voltage_pp
    ∷ MeterPhaseSample.current ∷ []

module _ {F : Type 0} (dbl : Doubles F) where
  open dbl use {to_single}

  abbrev pub meter_phase_sample_value : (ts k : ℕ) → MeterPhase F → MeterPhaseSample → Param F
  meter_phase_sample_value ts k p MeterPhaseSample.time = time_ms ts
  meter_phase_sample_value ts k p MeterPhaseSample.phase_id = integer (pos k)
  meter_phase_sample_value ts k p MeterPhaseSample.power_active = number (to_single p.active_power)
  meter_phase_sample_value ts k p MeterPhaseSample.power_apparent =
      number (to_single p.apparent_power)
  meter_phase_sample_value ts k p MeterPhaseSample.power_reactive =
      number (to_single p.reactive_power)
  meter_phase_sample_value ts k p MeterPhaseSample.power_factor = number (to_single p.power_factor)
  meter_phase_sample_value ts k p MeterPhaseSample.voltage_ph = number (to_single p.ph_voltage)
  meter_phase_sample_value ts k p MeterPhaseSample.voltage_pp = number (to_single p.pp_voltage)
  meter_phase_sample_value ts k p MeterPhaseSample.current = number (to_single p.current)

-- The numbers from 1 to a last one.
abbrev pub numbers : (last : ℕ) → List ℕ
numbers zero = []
numbers (suc n) = numbers n ++ suc n ∷ []

-- How many rows there are of a kind of which a device has a count, with a greatest one.
abbrev pub row_count : (most : ℕ) → (count : ℤ) → ℕ
row_count most count = pos_part (clamp count (pos 1) (pos most))

module _ {F : Type 0} where
  -- The phase and the input of a number.
  abbrev pub inverter_phase_at : InverterValues F → ℕ → InverterPhase F
  inverter_phase_at v (suc zero) = v.phase1
  inverter_phase_at v (suc (suc zero)) = v.phase2
  inverter_phase_at v _ = v.phase3

  abbrev pub inverter_input_at : InverterValues F → ℕ → InverterInput F
  inverter_input_at v (suc zero) = v.input1
  inverter_input_at v _ = v.input2

  abbrev pub meter_phase_at : MeterValues F → ℕ → MeterPhase F
  meter_phase_at v (suc zero) = v.phase1
  meter_phase_at v (suc (suc zero)) = v.phase2
  meter_phase_at v _ = v.phase3

module _ {F : Type 0} (dbl : Doubles F) (name : String) where
  abbrev pub inverter_phase_row_at : InverterValues F → ℕ → Sql F
  inverter_phase_row_at v k = execute inverter_phase name (
      map (inverter_phase_sample_value dbl v.time k (inverter_phase_at v k))
        inverter_phase_sample_columns)

  abbrev pub inverter_input_row_at : (hybrid : Bool) → InverterValues F → ℕ → Sql F
  inverter_input_row_at hybrid v k = execute inverter_input name (
      map (inverter_input_sample_value dbl hybrid v.time k (inverter_input_at v k))
        inverter_input_sample_columns)

  abbrev pub meter_phase_row_at : MeterValues F → ℕ → Sql F
  meter_phase_row_at v k =
      execute meter_phase name (
        map (meter_phase_sample_value dbl v.time k (meter_phase_at v k)) meter_phase_sample_columns)

  abbrev pub inverter_rows : (hybrid : Bool) (phases inputs : ℤ) → InverterValues F → List (Sql F)
  inverter_rows hybrid phases inputs v =
      execute inverter_sample name (map (inverter_sample_value dbl v) inverter_sample_columns)
        ∷ map (inverter_phase_row_at v) (numbers (row_count 3 phases))
      ++ map (inverter_input_row_at hybrid v) (numbers (row_count 2 inputs))

  abbrev pub meter_rows : (phases : ℤ) → MeterValues F → List (Sql F)
  meter_rows phases v =
      execute meter_sample name (map (meter_sample_value dbl v) meter_sample_columns)
      ∷ map (meter_phase_row_at v) (numbers (row_count 3 phases))
