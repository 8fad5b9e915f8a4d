-- ===== src/Readers/Rounding.antt =====
-- The `round` members of include/inverter_types.h and include/meter_types.h.
use fronius_bridge.Doubles.{Doubles, round_to}
use fronius_bridge.Devices.{InverterInput, InverterPhase, InverterValues, MeterPhase, MeterValues}

module _ {F : Type 0} (dbl : Doubles F) where
  unfoldable pub round_input : InverterInput F → InverterInput F
  round_input x = record {
    dc_voltage = round_to dbl x.dc_voltage 1;
    dc_current = round_to dbl x.dc_current 3;
    dc_power = round_to dbl x.dc_power 2;
    dc_energy = round_to dbl x.dc_energy 0;
  }

  unfoldable pub round_inverter_phase : InverterPhase F → InverterPhase F
  round_inverter_phase x = record {
    ac_voltage = round_to dbl x.ac_voltage 1;
    ac_current = round_to dbl x.ac_current 3;
  }

  unfoldable pub round_inverter : InverterValues F → InverterValues F
  unfolding round_input round_inverter_phase
  round_inverter v = record v {
    ac_energy = round_to dbl v.ac_energy 0;
    ac_power_active = round_to dbl v.ac_power_active 2;
    ac_power_apparent = round_to dbl v.ac_power_apparent 2;
    ac_power_reactive = round_to dbl v.ac_power_reactive 2;
    ac_power_factor = round_to dbl v.ac_power_factor 2;
    ac_frequency = round_to dbl v.ac_frequency 2;
    dc_power = round_to dbl v.dc_power 2;
    efficiency = round_to dbl v.efficiency 2;
    phase1 = round_inverter_phase v.phase1;
    phase2 = round_inverter_phase v.phase2;
    phase3 = round_inverter_phase v.phase3;
    input1 = round_input v.input1;
    input2 = round_input v.input2;
  }

  unfoldable pub round_meter_phase : MeterPhase F → MeterPhase F
  round_meter_phase x = record {
    ph_voltage = round_to dbl x.ph_voltage 1;
    pp_voltage = round_to dbl x.pp_voltage 1;
    current = round_to dbl x.current 3;
    active_power = round_to dbl x.active_power 2;
    reactive_power = round_to dbl x.reactive_power 2;
    apparent_power = round_to dbl x.apparent_power 2;
    power_factor = round_to dbl x.power_factor 2;
  }

  unfoldable pub round_meter : MeterValues F → MeterValues F
  unfolding round_meter_phase
  round_meter v = record v {
    active_energy_import = round_to dbl v.active_energy_import 0;
    active_energy_export = round_to dbl v.active_energy_export 0;
    reactive_energy_import = round_to dbl v.reactive_energy_import 0;
    reactive_energy_export = round_to dbl v.reactive_energy_export 0;
    apparent_energy_import = round_to dbl v.apparent_energy_import 0;
    apparent_energy_export = round_to dbl v.apparent_energy_export 0;
    ph_voltage = round_to dbl v.ph_voltage 1;
    pp_voltage = round_to dbl v.pp_voltage 1;
    current = round_to dbl v.current 3;
    active_power = round_to dbl v.active_power 2;
    reactive_power = round_to dbl v.reactive_power 2;
    apparent_power = round_to dbl v.apparent_power 2;
    power_factor = round_to dbl v.power_factor 2;
    frequency = round_to dbl v.frequency 2;
    phase1 = round_meter_phase v.phase1;
    phase2 = round_meter_phase v.phase2;
    phase3 = round_meter_phase v.phase3;
  }
