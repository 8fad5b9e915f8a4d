-- ===== src/Readers/Meter.antt =====
-- The reads of src/fronius_meter.cpp.
pub mod Phases
pub mod Poll
use fronius_bridge.Prelude.{
  ℕ, ℤ, pos, ltb_ℤ, String, append, Bool, true, false, List, [], ◌∷◌, ◌++◌, if◌then◌else◌, Result,
  ok, err, ◌>>=◌, ◌>>◌,
}
use fronius_bridge.Doubles.{Doubles, zero_double, scale_to_kilo}
use fronius_bridge.Devices.{MeterPhase, MeterValues, MeterDevice}
use fronius_bridge.Readers.Rounding.{round_meter}
use fronius_bridge.Readers.Json.{whole, unsigned, real, words, Object, leaf, objects, Document}

-- `FroniusTypes::Phase`, `EnergyDirection` and `RegisterMap`, with any other register map.
pub data MeterPhaseName : Type 0 where
  total average phv ppv a b c ab bc ca : MeterPhaseName

pub data Direction : Type 0 where
  import export : Direction

pub data RegisterMap : Type 0 where
  sunspec proprietary other_map : RegisterMap

pub record MeterReads (E F : Type 0) : Type 0 where
  pub fetched : Result E (Unit {0})
  pub now : ℕ
  pub energy_active : Direction → Result E F
  pub energy_apparent : Direction → Result E F
  pub energy_reactive : Direction → Result E F
  pub power_active : MeterPhaseName → Result E F
  pub power_apparent : MeterPhaseName → Result E F
  pub power_reactive : MeterPhaseName → Result E F
  pub power_factor : MeterPhaseName → Result E F
  pub ac_voltage : MeterPhaseName → Result E F
  pub ac_current : MeterPhaseName → Result E F
  pub ac_frequency : Result E F
  pub phases : ℤ
  pub register_map : RegisterMap

pub record MeterDeviceReads (E : Type 0) : Type 0 where
  pub manufacturer : Result E String
  pub model : Result E String
  pub serial_number : Result E String
  pub fw_version : Result E String
  pub use_float_registers : Bool
  pub modbus_device_address : Result E ℤ
  pub id : ℤ
  pub phases : ℤ

-- The reactive and the apparent energy, each with its import and its export.
pub record Energies (F : Type 0) : Type 0 where
  pub reactive_import : F
  pub reactive_export : F
  pub apparent_import : F
  pub apparent_export : F

module _ {F : Type 0} (dbl : Doubles F) where
  abbrev no_meter_phase : MeterPhase F
  no_meter_phase = record {
    ph_voltage = zero_double dbl;
    pp_voltage = zero_double dbl;
    current = zero_double dbl;
    active_power = zero_double dbl;
    reactive_power = zero_double dbl;
    apparent_power = zero_double dbl;
    power_factor = zero_double dbl;
  }

  abbrev pub sign_of : (reactive_power : F) → F
  sign_of reactive_power =
      if dbl.less_eq (dbl.literal "0.0") reactive_power
      then dbl.literal "1.0"
      else dbl.literal "-1.0"

  abbrev pub missing_leg : (sign hypotenuse leg : F) → F
  missing_leg sign hypotenuse leg =
      dbl.mul sign (dbl.sqrt (dbl.sub (dbl.mul hypotenuse hypotenuse) (dbl.mul leg leg)))

module _ {E F : Type 0} (dbl : Doubles F) where
  abbrev pub read_meter_phase :
      MeterReads E F → (phase line : MeterPhaseName) → Result E (MeterPhase F)
  read_meter_phase r phase line = do
    active ← r.power_active phase
    apparent ← r.power_apparent phase
    reactive ← r.power_reactive phase
    factor ← r.power_factor phase
    ph_voltage ← r.ac_voltage phase
    pp_voltage ← r.ac_voltage line
    current ← r.ac_current phase
    ok (record {
      ph_voltage = ph_voltage;
      pp_voltage = pp_voltage;
      current = current;
      active_power = active;
      reactive_power = reactive;
      apparent_power = apparent;
      power_factor = factor;
    })

  abbrev pub read_meter_phase_if :
      Bool → MeterReads E F → (phase line : MeterPhaseName) → Result E (MeterPhase F)
  read_meter_phase_if true r phase line = read_meter_phase r phase line
  read_meter_phase_if false r phase line = ok (no_meter_phase dbl)

  -- The proprietary map has no total current: the phases' currents are added.
  abbrev pub read_current : RegisterMap → MeterReads E F → (i1 i2 i3 : F) → Result E F
  read_current proprietary r i1 i2 i3 = ok (dbl.add (dbl.add i1 i2) i3)
  read_current sunspec r i1 i2 i3 = r.ac_current total
  read_current other_map r i1 i2 i3 = r.ac_current total

  -- Of reactive and apparent energy, a register map has one, and the other is derived with the active energy.
  abbrev pub read_energies :
      RegisterMap
      → MeterReads E F
      → (active_import active_export reactive_power : F) → Result E (Energies F)
  read_energies sunspec r active_import active_export reactive_power = do
    apparent_import ← r.energy_apparent import
    apparent_export ← r.energy_apparent export
    let sign = sign_of dbl reactive_power
    ok (record {
      reactive_import = missing_leg dbl sign apparent_import active_import;
      reactive_export = missing_leg dbl sign apparent_export active_export;
      apparent_import = apparent_import;
      apparent_export = apparent_export;
    })
  read_energies proprietary r active_import active_export reactive_power = do
    reactive_import ← r.energy_reactive import
    reactive_export ← r.energy_reactive export
    ok (record {
      reactive_import = reactive_import;
      reactive_export = reactive_export;
      apparent_import = dbl.hypot active_import reactive_import;
      apparent_export = dbl.hypot active_export reactive_export;
    })
  read_energies other_map r active_import active_export reactive_power = ok (record {
    reactive_import = zero_double dbl;
    reactive_export = zero_double dbl;
    apparent_import = zero_double dbl;
    apparent_export = zero_double dbl;
  })

  -- The values of one poll, rounded.
  unfoldable pub read_meter : MeterReads E F → Result E (MeterValues F)
  unfolding round_meter
  read_meter r = do
    r.fetched
    active_import ← r.energy_active import
    active_export ← r.energy_active export
    active_power ← r.power_active total
    apparent_power ← r.power_apparent total
    reactive_power ← r.power_reactive total
    power_factor ← r.power_factor average
    ph_voltage ← r.ac_voltage phv
    pp_voltage ← r.ac_voltage ppv
    frequency ← r.ac_frequency
    phase1 ← read_meter_phase r a ab
    phase2 ← read_meter_phase_if (ltb_ℤ (pos 1) r.phases) r b bc
    phase3 ← read_meter_phase_if (ltb_ℤ (pos 2) r.phases) r c ca
    current ← read_current r.register_map r phase1.current phase2.current phase3.current
    energies ← read_energies r.register_map r active_import active_export reactive_power
    ok (
        round_meter dbl (record {
          time = r.now;
          active_energy_import = active_import;
          active_energy_export = active_export;
          reactive_energy_import = energies.reactive_import;
          reactive_energy_export = energies.reactive_export;
          apparent_energy_import = energies.apparent_import;
          apparent_energy_export = energies.apparent_export;
          ph_voltage = ph_voltage;
          pp_voltage = pp_voltage;
          current = current;
          active_power = active_power;
          reactive_power = reactive_power;
          apparent_power = apparent_power;
          power_factor = power_factor;
          frequency = frequency;
          phase1 = phase1;
          phase2 = phase2;
          phase3 = phase3;
        }))
