-- ===== src/Devices.antt =====
-- include/inverter_types.h and include/meter_types.h: what the readers hand to the consumers. `F` stands
-- for `double`.
use fronius_bridge.Prelude.{ℕ, ℤ, String, Bool}

pub record InverterInput (F : Type 0) : Type 0 where
  pub dc_voltage : F
  pub dc_current : F
  pub dc_power : F
  pub dc_energy : F

pub record InverterPhase (F : Type 0) : Type 0 where
  pub ac_voltage : F
  pub ac_current : F

pub record InverterValues (F : Type 0) : Type 0 where
  pub time : ℕ
  pub ac_energy : F
  pub ac_power_active : F
  pub ac_power_apparent : F
  pub ac_power_reactive : F
  pub ac_power_factor : F
  pub phase1 : InverterPhase F
  pub phase2 : InverterPhase F
  pub phase3 : InverterPhase F
  pub ac_frequency : F
  pub dc_power : F
  pub efficiency : F
  pub input1 : InverterInput F
  pub input2 : InverterInput F

pub record InverterDevice (F : Type 0) : Type 0 where
  pub id : ℤ
  pub manufacturer : String
  pub model : String
  pub serial_number : String
  pub fw_version : String
  pub data_manager_version : String
  pub register_model : String
  pub is_hybrid : Bool
  pub phases : ℤ
  pub inputs : ℤ
  pub slave_id : ℤ
  pub ac_power_apparent : F

pub record MeterPhase (F : Type 0) : Type 0 where
  pub ph_voltage : F
  pub pp_voltage : F
  pub current : F
  pub active_power : F
  pub reactive_power : F
  pub apparent_power : F
  pub power_factor : F

pub record MeterValues (F : Type 0) : Type 0 where
  pub time : ℕ
  pub active_energy_import : F
  pub active_energy_export : F
  pub reactive_energy_import : F
  pub reactive_energy_export : F
  pub apparent_energy_import : F
  pub apparent_energy_export : F
  pub ph_voltage : F
  pub pp_voltage : F
  pub current : F
  pub active_power : F
  pub reactive_power : F
  pub apparent_power : F
  pub power_factor : F
  pub frequency : F
  pub phase1 : MeterPhase F
  pub phase2 : MeterPhase F
  pub phase3 : MeterPhase F

pub record MeterDevice : Type 0 where
  pub id : ℤ
  pub manufacturer : String
  pub model : String
  pub serial_number : String
  pub fw_version : String
  pub options : String
  pub data_manager_version : String
  pub register_model : String
  pub phases : ℤ
  pub inputs : ℤ
  pub slave_id : ℤ
