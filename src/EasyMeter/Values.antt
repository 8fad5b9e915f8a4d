-- ===== src/EasyMeter/Values.antt =====
-- The values that `EasyMeter::updateValuesAndJson` derives from a reading and the configured grid.
pub mod Shape
use fronius_bridge.Prelude.{
  ℕ, ◌≡◌, refl, ap, ◌∙◌, pos, Bool, true, false, List, [], ◌∷◌, if◌then◌else◌, arith,
}
use fronius_bridge.Doubles.{Doubles, zero_double, scale_to_kilo}
use fronius_bridge.Config.Types.{GridConfig}
use fronius_bridge.Devices.{MeterPhase, MeterValues}
use fronius_bridge.EasyMeter.Obis.{Reading}
use fronius_bridge.Readers.Rounding.{round_meter}
use fronius_bridge.Readers.Json.{unsigned, real, leaf, objects, Document}
use fronius_bridge.Readers.Meter.Phases.{meter_phase_object}

module _ {F : Type 0} (dbl : Doubles F) (grid : GridConfig F) where
  abbrev is_positive : F → Bool
  is_positive x = dbl.less (dbl.literal "0.0") x

  abbrev pub apparent_of : (active : F) → F
  apparent_of active = dbl.abs (dbl.div active grid.power_factor)

  abbrev pub sign : F
  sign = if grid.is_leading then dbl.literal "-1.0" else dbl.literal "1.0"

  abbrev pub reactive_of : (active : F) → F
  reactive_of active =
      dbl.mul (dbl.mul sign (dbl.tan (dbl.acos (dbl.abs grid.power_factor)))) active

  abbrev pub power_sign : F
  power_sign = if is_positive grid.power_factor then dbl.literal "1.0" else dbl.literal "-1.0"

  abbrev pub line_voltage : F → F → F
  line_voltage va vb = dbl.sqrt (dbl.add (dbl.add (dbl.mul va va) (dbl.mul vb vb)) (dbl.mul va vb))

  abbrev pub mean : F → F → F → F
  mean x y z = dbl.div (dbl.add (dbl.add x y) z) (dbl.literal "3.0")

  abbrev pub current_of : (active voltage : F) → F
  current_of active voltage = dbl.abs (dbl.div active (dbl.mul voltage grid.power_factor))

  -- A phase, with its voltage against the next one.
  abbrev pub derive_phase : (power voltage next : F) → MeterPhase F
  derive_phase power voltage next =
      let active = dbl.mul power power_sign in
      record {
        ph_voltage = voltage;
        pp_voltage = line_voltage voltage next;
        current = current_of active voltage;
        active_power = active;
        reactive_power = reactive_of active;
        apparent_power = apparent_of active;
        power_factor = grid.power_factor;
      }

  abbrev pub apparent_energy_of : (active_energy : F) → F
  apparent_energy_of active_energy = dbl.abs (dbl.div active_energy grid.power_factor)

  abbrev pub reactive_energy_of : (active_energy : F) → F
  reactive_energy_of active_energy =
      dbl.mul (dbl.sin (dbl.acos (dbl.abs grid.power_factor))) (apparent_energy_of active_energy)

  abbrev pub if_leading : F → F → F
  if_leading x y = if grid.is_leading then x else y

  unfoldable pub derive_values : (now : ℕ) → Reading F → MeterValues F
  unfolding round_meter
  derive_values now r =
      let active = dbl.mul r.active_power power_sign in
      let phase1 = derive_phase r.power1 r.voltage1 r.voltage2 in
      let phase2 = derive_phase r.power2 r.voltage2 r.voltage3 in
      let phase3 = derive_phase r.power3 r.voltage3 r.voltage1 in
      round_meter dbl (record {
        time = now;
        active_energy_import =
            if is_positive grid.power_factor then r.active_energy else zero_double dbl;
        active_energy_export =
            if dbl.less grid.power_factor (dbl.literal "0.0")
            then r.active_energy
            else zero_double dbl;
        reactive_energy_import = if_leading (zero_double dbl) (reactive_energy_of r.active_energy);
        reactive_energy_export = if_leading (reactive_energy_of r.active_energy) (zero_double dbl);
        apparent_energy_import = if_leading (zero_double dbl) (apparent_energy_of r.active_energy);
        apparent_energy_export = if_leading (apparent_energy_of r.active_energy) (zero_double dbl);
        ph_voltage = mean r.voltage1 r.voltage2 r.voltage3;
        pp_voltage = mean phase1.pp_voltage phase2.pp_voltage phase3.pp_voltage;
        current = dbl.add (dbl.add phase1.current phase2.current) phase3.current;
        active_power = active;
        reactive_power = reactive_of active;
        apparent_power = apparent_of active;
        power_factor = grid.power_factor;
        frequency = grid.frequency;
        phase1 = phase1;
        phase2 = phase2;
        phase3 = phase3;
      })

  unfoldable pub easy_meter_document : MeterValues F → Document F
  easy_meter_document v =
      ("time", leaf (unsigned v.time))
      ∷ ("energy_active_import", leaf (real (scale_to_kilo dbl v.active_energy_import)))
      ∷ ("energy_active_export", leaf (real (scale_to_kilo dbl v.active_energy_export)))
      ∷ ("energy_apparent_import", leaf (real (scale_to_kilo dbl v.apparent_energy_import)))
      ∷ ("energy_apparent_export", leaf (real (scale_to_kilo dbl v.apparent_energy_export)))
      ∷ ("energy_reactive_import", leaf (real (scale_to_kilo dbl v.reactive_energy_import)))
      ∷ ("energy_reactive_export", leaf (real (scale_to_kilo dbl v.reactive_energy_export)))
      ∷ ("power_active", leaf (real v.active_power))
      ∷ ("power_apparent", leaf (real v.apparent_power))
      ∷ ("power_reactive", leaf (real v.reactive_power))
      ∷ ("power_factor", leaf (real v.power_factor))
      ∷ ("frequency", leaf (real v.frequency))
      ∷ ("voltage_ph", leaf (real v.ph_voltage))
      ∷ ("voltage_pp", leaf (real v.pp_voltage))
      ∷ (
        "phases",
        objects (
            meter_phase_object (pos 1) v.phase1
            ∷ meter_phase_object (pos 2) v.phase2
            ∷ meter_phase_object (pos 3) v.phase3
            ∷ []),
      )
      ∷ []
