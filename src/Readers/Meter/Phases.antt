-- ===== src/Readers/Meter/Phases.antt =====
-- The documents of src/fronius_meter.cpp, and the phases that they have in common with the database.
use fronius_bridge.Prelude.{
  ◌≡◌, refl, ℤ, pos, pos_part, clamp, ltb_ℤ, String, append, true, false, List, [], ◌∷◌, ◌++◌,
  if◌then◌else◌, Result, ok, ◌>>=◌, Bool-cases, inl, inr, arith,
}
use fronius_bridge.Doubles.{Doubles, scale_to_kilo}
use fronius_bridge.Devices.{MeterPhase, MeterValues, MeterDevice}
use fronius_bridge.Pg.Inserts.{rows}
use fronius_bridge.Readers.Json.{whole, unsigned, real, words, Object, leaf, objects, Document}
use fronius_bridge.Readers.Meter.{MeterDeviceReads}

abbrev pub meter_phase_object : {F : Type 0} → ℤ → MeterPhase F → Object F
meter_phase_object i p =
    ("id", whole i)
    ∷ ("power_active", real p.active_power)
    ∷ ("power_apparent", real p.apparent_power)
    ∷ ("power_reactive", real p.reactive_power)
    ∷ ("power_factor", real p.power_factor)
    ∷ ("voltage_ph", real p.ph_voltage)
    ∷ ("voltage_pp", real p.pp_voltage)
    ∷ ("current", real p.current)
    ∷ []

-- Phase 1, and phases 2 and 3 if the meter has them.
unfoldable pub meter_phase_objects : {F : Type 0} → (phases : ℤ) → MeterValues F → List (Object F)
meter_phase_objects phases v =
    meter_phase_object (pos 1) v.phase1
    ∷ ((if ltb_ℤ (pos 1) phases then meter_phase_object (pos 2) v.phase2 ∷ [] else [])
        ++ (if ltb_ℤ (pos 2) phases then meter_phase_object (pos 3) v.phase3 ∷ [] else []))

unfoldable pub meter_document : {F : Type 0} → Doubles F → (phases : ℤ) → MeterValues F → Document F
unfolding meter_phase_objects
meter_document dbl phases v =
    ("time", leaf (unsigned v.time))
    ∷ ("energy_active_import", leaf (real (scale_to_kilo dbl v.active_energy_import)))
    ∷ ("energy_active_export", leaf (real (scale_to_kilo dbl v.active_energy_export)))
    ∷ ("energy_apparent_import", leaf (real (scale_to_kilo dbl v.apparent_energy_import)))
    ∷ ("energy_apparent_export", leaf (real (scale_to_kilo dbl v.apparent_energy_export)))
    ∷ ("energy_reactive_import", leaf (real (scale_to_kilo dbl v.reactive_energy_import)))
    ∷ ("energy_reactive_export", leaf (real (scale_to_kilo dbl v.reactive_energy_export)))
    ∷ ("power_active", leaf (real v.active_power))
    ∷ ("power_apparent", leaf (real v.apparent_power))
    ∷ ("power_reactive", leaf (real v.reactive_power))
    ∷ ("power_factor", leaf (real v.power_factor))
    ∷ ("frequency", leaf (real v.frequency))
    ∷ ("voltage_ph", leaf (real v.ph_voltage))
    ∷ ("voltage_pp", leaf (real v.pp_voltage))
    ∷ ("current", leaf (real v.current))
    ∷ ("phases", objects (meter_phase_objects phases v))
    ∷ []

-- `version` and `commit` are the build's.
unfoldable pub read_meter_device :
    {E : Type 0} → (version commit : String) → MeterDeviceReads E → Result E MeterDevice
read_meter_device version commit r = do
  manufacturer ← r.manufacturer
  model ← r.model
  serial_number ← r.serial_number
  fw_version ← r.fw_version
  slave_id ← r.modbus_device_address
  ok (record {
    id = r.id;
    manufacturer = manufacturer;
    model = model;
    serial_number = serial_number;
    fw_version = fw_version;
    options = append version (append "-" commit);
    data_manager_version = "";
    register_model = if r.use_float_registers then "float" else "int+sf";
    phases = r.phases;
    inputs = pos 0;
    slave_id = slave_id;
  })

unfoldable pub meter_device_document : {F : Type 0} → MeterDevice → Document F
meter_device_document d =
    ("manufacturer", leaf (words d.manufacturer))
    ∷ ("model", leaf (words d.model))
    ∷ ("serial_number", leaf (words d.serial_number))
    ∷ ("firmware_version", leaf (words d.fw_version))
    ∷ ("register_model", leaf (words d.register_model))
    ∷ ("slave_id", leaf (whole d.slave_id))
    ∷ ("meter_id", leaf (whole d.id))
    ∷ ("phases", leaf (whole d.phases))
    ∷ []

clamp_three : (n : ℤ) → ltb_ℤ (pos 2) n ≡ true → clamp n (pos 1) (pos 3) ≡ pos 3
clamp_three n h = ground arith

clamp_two :
    (n : ℤ) → ltb_ℤ (pos 1) n ≡ true → ltb_ℤ (pos 2) n ≡ false → clamp n (pos 1) (pos 3) ≡ pos 2
clamp_two n h k = ground arith

clamp_one : (n : ℤ) → ltb_ℤ (pos 1) n ≡ false → clamp n (pos 1) (pos 3) ≡ pos 1
clamp_one n h = ground arith

not_two : (n : ℤ) → ltb_ℤ (pos 1) n ≡ false → ltb_ℤ (pos 2) n ≡ false
not_two n h = ground arith

-- Where the database gets a row per phase of a count held between 1 and 3, the document has an object for
-- exactly the same phases, with the same ids.
pub meter_phase_objects-rows :
    {F : Type 0} (phases : ℤ) (v : MeterValues F)
    → meter_phase_objects phases v
      ≡ rows meter_phase_object 1
          (pos_part (clamp phases (pos 1) (pos 3)))
          (v.phase1 ∷ v.phase2 ∷ v.phase3 ∷ [])
unfolding meter_phase_objects
meter_phase_objects-rows phases v = elim (Bool-cases (ltb_ℤ (pos 1) phases)) [
  | inl one ↦ elim (Bool-cases (ltb_ℤ (pos 2) phases)) [
    | inl two ↦ rw (one, two, clamp_three phases two) refl
    | inr two ↦ rw (one, two, clamp_two phases one two) refl
  ]
  | inr one ↦ rw (one, not_two phases one, clamp_one phases one) refl
]
