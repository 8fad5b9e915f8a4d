-- ===== src/Slave/Registers/Meaning.antt =====
-- What each register of the meter models means by its name in SunSpec, read register by register: the quantity,
-- and in the integer models the scale factor and the decimals that it is shown with. A name that ends in `ph` and
-- a letter, or two letters, is that phase's, or that of two phases.
use fronius_bridge.Prelude.{ℕ, Bool, true, false, none, some, All}
use fronius_bridge.Devices.{MeterValues}
use fronius_bridge.Slave.Registers.{
  Register, Scale, Pack, float_packs, scaled_packs, pf, pfpha, pfphb, pfphc, w, wpha, wphb, wphc,
  va, vapha, vaphb, vaphc, var, varpha, varphb, varphc, phv, phvpha, phvphb, phvphc, ppv, ppvphab,
  ppvphbc, ppvphca, a, apha, aphb, aphc, tot_wh_imp, tot_wh_exp, tot_vah_imp, tot_vah_exp, freq,
  pf_sf, w_sf, va_sf, var_sf, v_sf, a_sf, tot_wh_sf, tot_vah_sf, freq_sf,
}

module _ {F : Type 0} where
  abbrev pub quantity_of : Register → MeterValues F → F
  quantity_of pf v = v.power_factor
  quantity_of pfpha v = v.phase1.power_factor
  quantity_of pfphb v = v.phase2.power_factor
  quantity_of pfphc v = v.phase3.power_factor
  quantity_of w v = v.active_power
  quantity_of wpha v = v.phase1.active_power
  quantity_of wphb v = v.phase2.active_power
  quantity_of wphc v = v.phase3.active_power
  quantity_of va v = v.apparent_power
  quantity_of vapha v = v.phase1.apparent_power
  quantity_of vaphb v = v.phase2.apparent_power
  quantity_of vaphc v = v.phase3.apparent_power
  quantity_of var v = v.reactive_power
  quantity_of varpha v = v.phase1.reactive_power
  quantity_of varphb v = v.phase2.reactive_power
  quantity_of varphc v = v.phase3.reactive_power
  quantity_of phv v = v.ph_voltage
  quantity_of phvpha v = v.phase1.ph_voltage
  quantity_of phvphb v = v.phase2.ph_voltage
  quantity_of phvphc v = v.phase3.ph_voltage
  quantity_of ppv v = v.pp_voltage
  quantity_of ppvphab v = v.phase1.pp_voltage
  quantity_of ppvphbc v = v.phase2.pp_voltage
  quantity_of ppvphca v = v.phase3.pp_voltage
  quantity_of a v = v.current
  quantity_of apha v = v.phase1.current
  quantity_of aphb v = v.phase2.current
  quantity_of aphc v = v.phase3.current
  quantity_of tot_wh_imp v = v.active_energy_import
  quantity_of tot_wh_exp v = v.active_energy_export
  quantity_of tot_vah_imp v = v.apparent_energy_import
  quantity_of tot_vah_exp v = v.apparent_energy_export
  quantity_of freq v = v.frequency

abbrev pub scale_of : Register → Scale × ℕ
scale_of pf = (pf_sf, 1)
scale_of pfpha = (pf_sf, 1)
scale_of pfphb = (pf_sf, 1)
scale_of pfphc = (pf_sf, 1)
scale_of w = (w_sf, 0)
scale_of wpha = (w_sf, 0)
scale_of wphb = (w_sf, 0)
scale_of wphc = (w_sf, 0)
scale_of va = (va_sf, 0)
scale_of vapha = (va_sf, 0)
scale_of vaphb = (va_sf, 0)
scale_of vaphc = (va_sf, 0)
scale_of var = (var_sf, 0)
scale_of varpha = (var_sf, 0)
scale_of varphb = (var_sf, 0)
scale_of varphc = (var_sf, 0)
scale_of phv = (v_sf, 1)
scale_of phvpha = (v_sf, 1)
scale_of phvphb = (v_sf, 1)
scale_of phvphc = (v_sf, 1)
scale_of ppv = (v_sf, 1)
scale_of ppvphab = (v_sf, 1)
scale_of ppvphbc = (v_sf, 1)
scale_of ppvphca = (v_sf, 1)
scale_of a = (a_sf, 3)
scale_of apha = (a_sf, 3)
scale_of aphb = (a_sf, 3)
scale_of aphc = (a_sf, 3)
scale_of tot_wh_imp = (tot_wh_sf, 0)
scale_of tot_wh_exp = (tot_wh_sf, 0)
scale_of tot_vah_imp = (tot_vah_sf, 0)
scale_of tot_vah_exp = (tot_vah_sf, 0)
scale_of freq = (freq_sf, 1)

module _ {F : Type 0} where
  -- What a register is to show of a reading.
  abbrev pub meant : (use_float_model : Bool) → MeterValues F → Register → Pack F
  meant true v r = record { register = r; scaling = none; value = quantity_of r v }
  meant false v r = record { register = r; scaling = some (scale_of r); value = quantity_of r v }

  -- The calls of `updateValues` have one for each register, with what it means.
  pub float_packs-meant :
      (Q : Pack F → Type 0) (v : MeterValues F) (r : Register)
      → All Q (float_packs v)
      → Q (meant true v r)
  unfolding float_packs
  float_packs-meant Q v pf h = h.0
  float_packs-meant Q v pfpha h = h.1.0
  float_packs-meant Q v pfphb h = h.1.1.0
  float_packs-meant Q v pfphc h = h.1.1.1.0
  float_packs-meant Q v w h = h.1.1.1.1.0
  float_packs-meant Q v wpha h = h.1.1.1.1.1.0
  float_packs-meant Q v wphb h = h.1.1.1.1.1.1.0
  float_packs-meant Q v wphc h = h.1.1.1.1.1.1.1.0
  float_packs-meant Q v va h = h.1.1.1.1.1.1.1.1.0
  float_packs-meant Q v vapha h = h.1.1.1.1.1.1.1.1.1.0
  float_packs-meant Q v vaphb h = h.1.1.1.1.1.1.1.1.1.1.0
  float_packs-meant Q v vaphc h = h.1.1.1.1.1.1.1.1.1.1.1.0
  float_packs-meant Q v var h = h.1.1.1.1.1.1.1.1.1.1.1.1.0
  float_packs-meant Q v varpha h = h.1.1.1.1.1.1.1.1.1.1.1.1.1.0
  float_packs-meant Q v varphb h = h.1.1.1.1.1.1.1.1.1.1.1.1.1.1.0
  float_packs-meant Q v varphc h = h.1.1.1.1.1.1.1.1.1.1.1.1.1.1.1.0
  float_packs-meant Q v phv h = h.1.1.1.1.1.1.1.1.1.1.1.1.1.1.1.1.0
  float_packs-meant Q v phvpha h = h.1.1.1.1.1.1.1.1.1.1.1.1.1.1.1.1.1.0
  float_packs-meant Q v phvphb h = h.1.1.1.1.1.1.1.1.1.1.1.1.1.1.1.1.1.1.0
  float_packs-meant Q v phvphc h = h.1.1.1.1.1.1.1.1.1.1.1.1.1.1.1.1.1.1.1.0
  float_packs-meant Q v ppv h = h.1.1.1.1.1.1.1.1.1.1.1.1.1.1.1.1.1.1.1.1.0
  float_packs-meant Q v ppvphab h = h.1.1.1.1.1.1.1.1.1.1.1.1.1.1.1.1.1.1.1.1.1.0
  float_packs-meant Q v ppvphbc h = h.1.1.1.1.1.1.1.1.1.1.1.1.1.1.1.1.1.1.1.1.1.1.0
  float_packs-meant Q v ppvphca h = h.1.1.1.1.1.1.1.1.1.1.1.1.1.1.1.1.1.1.1.1.1.1.1.0
  float_packs-meant Q v a h = h.1.1.1.1.1.1.1.1.1.1.1.1.1.1.1.1.1.1.1.1.1.1.1.1.0
  float_packs-meant Q v apha h = h.1.1.1.1.1.1.1.1.1.1.1.1.1.1.1.1.1.1.1.1.1.1.1.1.1.0
  float_packs-meant Q v aphb h = h.1.1.1.1.1.1.1.1.1.1.1.1.1.1.1.1.1.1.1.1.1.1.1.1.1.1.0
  float_packs-meant Q v aphc h = h.1.1.1.1.1.1.1.1.1.1.1.1.1.1.1.1.1.1.1.1.1.1.1.1.1.1.1.0
  float_packs-meant Q v tot_wh_imp h = h.1.1.1.1.1.1.1.1.1.1.1.1.1.1.1.1.1.1.1.1.1.1.1.1.1.1.1.1.0
  float_packs-meant Q v tot_wh_exp h = h.1.1.1.1.1.1.1.1.1.1.1.1.1.1.1.1.1.1.1.1.1.1.1.1.1.1.1.1.1.0
  float_packs-meant Q v tot_vah_imp h =
      h.1.1.1.1.1.1.1.1.1.1.1.1.1.1.1.1.1.1.1.1.1.1.1.1.1.1.1.1.1.1.0
  float_packs-meant Q v tot_vah_exp h =
      h.1.1.1.1.1.1.1.1.1.1.1.1.1.1.1.1.1.1.1.1.1.1.1.1.1.1.1.1.1.1.1.0
  float_packs-meant Q v freq h = h.1.1.1.1.1.1.1.1.1.1.1.1.1.1.1.1.1.1.1.1.1.1.1.1.1.1.1.1.1.1.1.1.0

  -- The calls of `updateValues` have one for each register, with what it means.
  pub scaled_packs-meant :
      (Q : Pack F → Type 0) (v : MeterValues F) (r : Register)
      → All Q (scaled_packs v)
      → Q (meant false v r)
  unfolding scaled_packs
  scaled_packs-meant Q v pf h = h.0
  scaled_packs-meant Q v pfpha h = h.1.0
  scaled_packs-meant Q v pfphb h = h.1.1.0
  scaled_packs-meant Q v pfphc h = h.1.1.1.0
  scaled_packs-meant Q v w h = h.1.1.1.1.0
  scaled_packs-meant Q v wpha h = h.1.1.1.1.1.0
  scaled_packs-meant Q v wphb h = h.1.1.1.1.1.1.0
  scaled_packs-meant Q v wphc h = h.1.1.1.1.1.1.1.0
  scaled_packs-meant Q v va h = h.1.1.1.1.1.1.1.1.0
  scaled_packs-meant Q v vapha h = h.1.1.1.1.1.1.1.1.1.0
  scaled_packs-meant Q v vaphb h = h.1.1.1.1.1.1.1.1.1.1.0
  scaled_packs-meant Q v vaphc h = h.1.1.1.1.1.1.1.1.1.1.1.0
  scaled_packs-meant Q v var h = h.1.1.1.1.1.1.1.1.1.1.1.1.0
  scaled_packs-meant Q v varpha h = h.1.1.1.1.1.1.1.1.1.1.1.1.1.0
  scaled_packs-meant Q v varphb h = h.1.1.1.1.1.1.1.1.1.1.1.1.1.1.0
  scaled_packs-meant Q v varphc h = h.1.1.1.1.1.1.1.1.1.1.1.1.1.1.1.0
  scaled_packs-meant Q v phv h = h.1.1.1.1.1.1.1.1.1.1.1.1.1.1.1.1.0
  scaled_packs-meant Q v phvpha h = h.1.1.1.1.1.1.1.1.1.1.1.1.1.1.1.1.1.0
  scaled_packs-meant Q v phvphb h = h.1.1.1.1.1.1.1.1.1.1.1.1.1.1.1.1.1.1.0
  scaled_packs-meant Q v phvphc h = h.1.1.1.1.1.1.1.1.1.1.1.1.1.1.1.1.1.1.1.0
  scaled_packs-meant Q v ppv h = h.1.1.1.1.1.1.1.1.1.1.1.1.1.1.1.1.1.1.1.1.0
  scaled_packs-meant Q v ppvphab h = h.1.1.1.1.1.1.1.1.1.1.1.1.1.1.1.1.1.1.1.1.1.0
  scaled_packs-meant Q v ppvphbc h = h.1.1.1.1.1.1.1.1.1.1.1.1.1.1.1.1.1.1.1.1.1.1.0
  scaled_packs-meant Q v ppvphca h = h.1.1.1.1.1.1.1.1.1.1.1.1.1.1.1.1.1.1.1.1.1.1.1.0
  scaled_packs-meant Q v a h = h.1.1.1.1.1.1.1.1.1.1.1.1.1.1.1.1.1.1.1.1.1.1.1.1.0
  scaled_packs-meant Q v apha h = h.1.1.1.1.1.1.1.1.1.1.1.1.1.1.1.1.1.1.1.1.1.1.1.1.1.0
  scaled_packs-meant Q v aphb h = h.1.1.1.1.1.1.1.1.1.1.1.1.1.1.1.1.1.1.1.1.1.1.1.1.1.1.0
  scaled_packs-meant Q v aphc h = h.1.1.1.1.1.1.1.1.1.1.1.1.1.1.1.1.1.1.1.1.1.1.1.1.1.1.1.0
  scaled_packs-meant Q v tot_wh_imp h = h.1.1.1.1.1.1.1.1.1.1.1.1.1.1.1.1.1.1.1.1.1.1.1.1.1.1.1.1.0
  scaled_packs-meant Q v tot_wh_exp h =
      h.1.1.1.1.1.1.1.1.1.1.1.1.1.1.1.1.1.1.1.1.1.1.1.1.1.1.1.1.1.0
  scaled_packs-meant Q v tot_vah_imp h =
      h.1.1.1.1.1.1.1.1.1.1.1.1.1.1.1.1.1.1.1.1.1.1.1.1.1.1.1.1.1.1.0
  scaled_packs-meant Q v tot_vah_exp h =
      h.1.1.1.1.1.1.1.1.1.1.1.1.1.1.1.1.1.1.1.1.1.1.1.1.1.1.1.1.1.1.1.0
  scaled_packs-meant Q v freq h =
      h.1.1.1.1.1.1.1.1.1.1.1.1.1.1.1.1.1.1.1.1.1.1.1.1.1.1.1.1.1.1.1.1.0
