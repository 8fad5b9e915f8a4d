-- ===== src/Readers/Inverter/Documents.antt =====
-- The documents that src/inverter_master.cpp makes of what it has read.
use fronius_bridge.Prelude.{ℤ, pos, pos_part, clamp, Bool, List, [], ◌∷◌, ◌++◌, if◌then◌else◌}
use fronius_bridge.Doubles.{Doubles, scale_to_kilo}
use fronius_bridge.Devices.{InverterInput, InverterPhase, InverterValues, InverterDevice}
use fronius_bridge.Readers.Json.{
  whole, unsigned, real, words, flag, Object, leaf, texts, objects, Document,
}
use fronius_bridge.Pg.Inserts.{rows}
use fronius_bridge.Readers.Inverter.{InverterReads, InverterEvents}

module _ {F : Type 0} (dbl : Doubles F) where
  abbrev pub phase_object : ℤ → InverterPhase F → Object F
  phase_object i p =
      ("id", whole i) ∷ ("ac_voltage", real p.ac_voltage) ∷ ("ac_current", real p.ac_current) ∷ []

  abbrev pub input_object : (is_hybrid : Bool) → ℤ → InverterInput F → Object F
  input_object is_hybrid i p =
      (("id", whole i)
        ∷ ("dc_voltage", real p.dc_voltage)
        ∷ ("dc_current", real p.dc_current)
        ∷ ("dc_power", real p.dc_power)
        ∷ [])
      ++ (if is_hybrid then [] else ("dc_energy", real (scale_to_kilo dbl p.dc_energy)) ∷ [])

  abbrev pub phase_objects : (phases : ℤ) → InverterValues F → List (Object F)
  phase_objects phases v =
      rows phase_object 1 (pos_part (clamp phases (pos 1) (pos 3)))
        (v.phase1 ∷ v.phase2 ∷ v.phase3 ∷ [])

  abbrev pub input_objects : (is_hybrid : Bool) → (inputs : ℤ) → InverterValues F → List (Object F)
  input_objects is_hybrid inputs v =
      rows (input_object is_hybrid) 1 (pos_part (clamp inputs (pos 1) (pos 2)))
        (v.input1 ∷ v.input2 ∷ [])

  abbrev pub events_document : InverterEvents → Document F
  events_document e =
      ("active_code", leaf (whole e.active_code))
      ∷ ("state", leaf (words e.state))
      ∷ ("events", texts e.events)
      ∷ []

  unfoldable pub device_document : InverterDevice F → Document F
  device_document d =
      ("manufacturer", leaf (words d.manufacturer))
      ∷ ("model", leaf (words d.model))
      ∷ ("serial_number", leaf (words d.serial_number))
      ∷ ("firmware_version", leaf (words d.fw_version))
      ∷ ("data_manager", leaf (words d.data_manager_version))
      ∷ ("register_model", leaf (words d.register_model))
      ∷ ("slave_id", leaf (whole d.slave_id))
      ∷ ("inverter_id", leaf (whole d.id))
      ∷ ("hybrid", leaf (flag d.is_hybrid))
      ∷ ("mppt_tracker", leaf (whole d.inputs))
      ∷ ("phases", leaf (whole d.phases))
      ∷ ("power_rating", leaf (real d.ac_power_apparent))
      ∷ []

module _ {E F : Type 0} (dbl : Doubles F) where
  unfoldable pub inverter_document : InverterReads E F → InverterValues F → Document F
  inverter_document r v =
      ("time", leaf (unsigned v.time))
      ∷ ("ac_energy", leaf (real (scale_to_kilo dbl v.ac_energy)))
      ∷ ("ac_power_active", leaf (real v.ac_power_active))
      ∷ ("ac_power_apparent", leaf (real v.ac_power_apparent))
      ∷ ("ac_power_reactive", leaf (real v.ac_power_reactive))
      ∷ ("ac_power_factor", leaf (real v.ac_power_factor))
      ∷ ("phases", objects (phase_objects dbl r.phases v))
      ∷ ("ac_frequency", leaf (real v.ac_frequency))
      ∷ ("dc_power", leaf (real v.dc_power))
      ∷ ("efficiency", leaf (real v.efficiency))
      ∷ ("inputs", objects (input_objects dbl r.is_hybrid r.inputs v))
      ∷ []
