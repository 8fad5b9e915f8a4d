-- ===== src/Readers/Inverter.antt =====
-- The reads of src/inverter_master.cpp: what is asked of libfronius, and the values, events, devices and
-- documents that are made of it.
pub mod Documents
pub mod Poll
pub mod Inputs
use fronius_bridge.Prelude.{
  ℕ, ℤ, pos, pos_part, clamp, ltb_ℤ, int_beq, String, Bool, true, false, not, List, [], ◌∷◌, ◌++◌,
  map, if◌then◌else◌, Result, ok, err, ◌>>=◌, ◌>>◌,
}
use fronius_bridge.Doubles.{Doubles, zero_double, scale_to_kilo}
use fronius_bridge.Devices.{InverterInput, InverterPhase, InverterValues, InverterDevice}
use fronius_bridge.Readers.Rounding.{round_inverter}
use fronius_bridge.Readers.Json.{
  whole, unsigned, real, words, flag, Object, leaf, texts, objects, Document,
}
use fronius_bridge.Pg.Inserts.{rows}

-- `FroniusTypes::Output`, `Phase` and `Input`, as far as they are used.
pub data Output : Type 0 where
  active apparent reactive factor : Output

pub data PhaseName : Type 0 where
  a b c : PhaseName

pub data InputName : Type 0 where
  total input_a input_b : InputName

-- What the getters return on the registers of one fetch.
pub record InverterReads (E F : Type 0) : Type 0 where
  pub fetched : Result E (Unit {0})
  pub now : ℕ
  pub ac_energy : Result E F
  pub ac_power : Output → Result E F
  pub ac_voltage : PhaseName → Result E F
  pub ac_current : PhaseName → Result E F
  pub ac_frequency : Result E F
  pub dc_power : InputName → Result E F
  pub dc_voltage : InputName → Result E F
  pub dc_current : InputName → Result E F
  pub dc_energy : InputName → Result E F
  pub phases : ℤ
  pub inputs : ℤ
  pub is_hybrid : Bool

pub record InverterEvents : Type 0 where
  pub active_code : ℤ
  pub state : String
  pub events : List String

pub record EventReads (E : Type 0) : Type 0 where
  pub active_code : ℤ
  pub state : Result E String
  pub events : Result E (List String)

-- The getters of an inverter's identity.
pub record DeviceReads (E F : Type 0) : Type 0 where
  pub manufacturer : Result E String
  pub model : Result E String
  pub serial_number : Result E String
  pub fw_version : Result E String
  pub options : Result E String
  pub use_float_registers : Bool
  pub modbus_device_address : Result E ℤ
  pub ac_power_rating : Result E F
  pub id : ℤ
  pub is_hybrid : Bool
  pub inputs : ℤ
  pub phases : ℤ

module _ {F : Type 0} (dbl : Doubles F) where
  abbrev pub no_phase : InverterPhase F
  no_phase = record { ac_voltage = zero_double dbl; ac_current = zero_double dbl }

  abbrev pub no_input : InverterInput F
  no_input = record {
    dc_voltage = zero_double dbl;
    dc_current = zero_double dbl;
    dc_power = zero_double dbl;
    dc_energy = zero_double dbl;
  }

  abbrev pub efficiency_of : (ac_power dc_power : F) → F
  efficiency_of ac_power dc_power =
      if dbl.less (dbl.literal "1e-12") (dbl.abs dc_power)
      then dbl.mul (dbl.div ac_power dc_power) (dbl.literal "100.0")
      else zero_double dbl

module _ {E F : Type 0} (dbl : Doubles F) where
  abbrev pub read_phase : InverterReads E F → PhaseName → Result E (InverterPhase F)
  read_phase r p = do
    voltage ← r.ac_voltage p
    current ← r.ac_current p
    ok (record { ac_voltage = voltage; ac_current = current })

  abbrev pub read_phase_if : Bool → InverterReads E F → PhaseName → Result E (InverterPhase F)
  read_phase_if true r p = read_phase r p
  read_phase_if false r p = ok (no_phase dbl)

  -- The energy of a hybrid inverter's input is not read.
  abbrev pub read_energy : (is_hybrid : Bool) → InverterReads E F → InputName → Result E F
  read_energy true r i = ok (zero_double dbl)
  read_energy false r i = r.dc_energy i

  abbrev pub read_input : InverterReads E F → InputName → Result E (InverterInput F)
  read_input r i = do
    power ← r.dc_power i
    voltage ← r.dc_voltage i
    current ← r.dc_current i
    energy ← read_energy r.is_hybrid r i
    ok (record { dc_voltage = voltage; dc_current = current; dc_power = power; dc_energy = energy })

  abbrev pub read_input_if : Bool → InverterReads E F → InputName → Result E (InverterInput F)
  read_input_if true r i = read_input r i
  read_input_if false r i = ok (no_input dbl)

  -- The AC part of the values; the rest is zero yet.
  unfoldable pub read_ac : InverterReads E F → Result E (InverterValues F)
  read_ac r = do
    energy ← r.ac_energy
    active_power ← r.ac_power active
    apparent_power ← r.ac_power apparent
    reactive_power ← r.ac_power reactive
    power_factor ← r.ac_power factor
    phase1 ← read_phase r a
    phase2 ← read_phase_if (ltb_ℤ (pos 1) r.phases) r b
    phase3 ← read_phase_if (ltb_ℤ (pos 2) r.phases) r c
    frequency ← r.ac_frequency
    ok (record {
      time = r.now;
      ac_energy = energy;
      ac_power_active = active_power;
      ac_power_apparent = apparent_power;
      ac_power_reactive = reactive_power;
      ac_power_factor = power_factor;
      phase1 = phase1;
      phase2 = phase2;
      phase3 = phase3;
      ac_frequency = frequency;
      dc_power = zero_double dbl;
      efficiency = zero_double dbl;
      input1 = no_input dbl;
      input2 = no_input dbl;
    })

  -- The values of one poll, rounded.
  unfoldable pub read_inverter : InverterReads E F → Result E (InverterValues F)
  unfolding read_ac round_inverter
  read_inverter r = do
    r.fetched
    v ← read_ac r
    dc_power ← r.dc_power total
    input1 ← read_input r input_a
    input2 ← read_input_if (int_beq r.inputs (pos 2)) r input_b
    let read : InverterValues F = record v {
      dc_power = dc_power;
      efficiency = efficiency_of dbl v.ac_power_active dc_power;
      input1 = input1;
      input2 = input2;
    }
    ok (round_inverter dbl read)

  abbrev pub read_events : EventReads E → Result E InverterEvents
  read_events r = do
    state ← r.state
    events ← r.events
    ok (record { active_code = r.active_code; state = state; events = events })

  unfoldable pub read_device : DeviceReads E F → Result E (InverterDevice F)
  read_device r = do
    manufacturer ← r.manufacturer
    model ← r.model
    serial_number ← r.serial_number
    fw_version ← r.fw_version
    data_manager_version ← r.options
    slave_id ← r.modbus_device_address
    rating ← r.ac_power_rating
    ok (record {
      id = r.id;
      manufacturer = manufacturer;
      model = model;
      serial_number = serial_number;
      fw_version = fw_version;
      data_manager_version = data_manager_version;
      register_model = if r.use_float_registers then "float" else "int+sf";
      is_hybrid = r.is_hybrid;
      phases = r.phases;
      inputs = r.inputs;
      slave_id = slave_id;
      ac_power_apparent = rating;
    })
