-- ===== src/Slave/Registers.antt =====
-- What MeterSlave::updateValues packs into the registers, for the two SunSpec meter models. Where a register
-- lies is libfronius' affair (`M20X`, `M21X`).
pub mod Meaning
use fronius_bridge.Prelude.{ℕ, Bool, true, false, ℤ, String, Option, none, some, List, [], ◌∷◌}
use fronius_bridge.Devices.{MeterValues, MeterDevice}

-- The registers that the models have in common, by their names in `M20X` and `M21X`.
pub data Register : Type 0 where
  pf pfpha pfphb pfphc w wpha wphb wphc va vapha vaphb vaphc var varpha varphb varphc phv phvpha
        phvphb phvphc ppv ppvphab ppvphbc ppvphca a apha aphb aphc tot_wh_imp tot_wh_exp tot_vah_imp
        tot_vah_exp freq :
      Register

-- The scale factors of `M20X`.
pub data Scale : Type 0 where
  pf_sf w_sf va_sf var_sf v_sf a_sf tot_wh_sf tot_vah_sf freq_sf : Scale

-- A call of `packToModbus`: with a scale register and a number of decimals in the integer model.
pub record Pack (F : Type 0) : Type 0 where
  pub register : Register
  pub scaling : Option (Scale × ℕ)
  pub value : F

module _ {F : Type 0} where
  abbrev pub float_pack : Register → F → Pack F
  float_pack r x = record { register = r; scaling = none; value = x }

  abbrev pub scaled_pack : Register → Scale → F → (decimals : ℕ) → Pack F
  scaled_pack r s x decimals = record { register = r; scaling = some (s, decimals); value = x }

  unfoldable pub float_packs : MeterValues F → List (Pack F)
  float_packs v =
      float_pack pf v.power_factor
      ∷ float_pack pfpha v.phase1.power_factor
      ∷ float_pack pfphb v.phase2.power_factor
      ∷ float_pack pfphc v.phase3.power_factor
      ∷ float_pack w v.active_power
      ∷ float_pack wpha v.phase1.active_power
      ∷ float_pack wphb v.phase2.active_power
      ∷ float_pack wphc v.phase3.active_power
      ∷ float_pack va v.apparent_power
      ∷ float_pack vapha v.phase1.apparent_power
      ∷ float_pack vaphb v.phase2.apparent_power
      ∷ float_pack vaphc v.phase3.apparent_power
      ∷ float_pack var v.reactive_power
      ∷ float_pack varpha v.phase1.reactive_power
      ∷ float_pack varphb v.phase2.reactive_power
      ∷ float_pack varphc v.phase3.reactive_power
      ∷ float_pack phv v.ph_voltage
      ∷ float_pack phvpha v.phase1.ph_voltage
      ∷ float_pack phvphb v.phase2.ph_voltage
      ∷ float_pack phvphc v.phase3.ph_voltage
      ∷ float_pack ppv v.pp_voltage
      ∷ float_pack ppvphab v.phase1.pp_voltage
      ∷ float_pack ppvphbc v.phase2.pp_voltage
      ∷ float_pack ppvphca v.phase3.pp_voltage
      ∷ float_pack a v.current
      ∷ float_pack apha v.phase1.current
      ∷ float_pack aphb v.phase2.current
      ∷ float_pack aphc v.phase3.current
      ∷ float_pack tot_wh_imp v.active_energy_import
      ∷ float_pack tot_wh_exp v.active_energy_export
      ∷ float_pack tot_vah_imp v.apparent_energy_import
      ∷ float_pack tot_vah_exp v.apparent_energy_export
      ∷ float_pack freq v.frequency
      ∷ []

  unfoldable pub scaled_packs : MeterValues F → List (Pack F)
  scaled_packs v =
      scaled_pack pf pf_sf v.power_factor 1
      ∷ scaled_pack pfpha pf_sf v.phase1.power_factor 1
      ∷ scaled_pack pfphb pf_sf v.phase2.power_factor 1
      ∷ scaled_pack pfphc pf_sf v.phase3.power_factor 1
      ∷ scaled_pack w w_sf v.active_power 0
      ∷ scaled_pack wpha w_sf v.phase1.active_power 0
      ∷ scaled_pack wphb w_sf v.phase2.active_power 0
      ∷ scaled_pack wphc w_sf v.phase3.active_power 0
      ∷ scaled_pack va va_sf v.apparent_power 0
      ∷ scaled_pack vapha va_sf v.phase1.apparent_power 0
      ∷ scaled_pack vaphb va_sf v.phase2.apparent_power 0
      ∷ scaled_pack vaphc va_sf v.phase3.apparent_power 0
      ∷ scaled_pack var var_sf v.reactive_power 0
      ∷ scaled_pack varpha var_sf v.phase1.reactive_power 0
      ∷ scaled_pack varphb var_sf v.phase2.reactive_power 0
      ∷ scaled_pack varphc var_sf v.phase3.reactive_power 0
      ∷ scaled_pack phv v_sf v.ph_voltage 1
      ∷ scaled_pack phvpha v_sf v.phase1.ph_voltage 1
      ∷ scaled_pack phvphb v_sf v.phase2.ph_voltage 1
      ∷ scaled_pack phvphc v_sf v.phase3.ph_voltage 1
      ∷ scaled_pack ppv v_sf v.pp_voltage 1
      ∷ scaled_pack ppvphab v_sf v.phase1.pp_voltage 1
      ∷ scaled_pack ppvphbc v_sf v.phase2.pp_voltage 1
      ∷ scaled_pack ppvphca v_sf v.phase3.pp_voltage 1
      ∷ scaled_pack a a_sf v.current 3
      ∷ scaled_pack apha a_sf v.phase1.current 3
      ∷ scaled_pack aphb a_sf v.phase2.current 3
      ∷ scaled_pack aphc a_sf v.phase3.current 3
      ∷ scaled_pack tot_wh_imp tot_wh_sf v.active_energy_import 0
      ∷ scaled_pack tot_wh_exp tot_wh_sf v.active_energy_export 0
      ∷ scaled_pack tot_vah_imp tot_vah_sf v.apparent_energy_import 0
      ∷ scaled_pack tot_vah_exp tot_vah_sf v.apparent_energy_export 0
      ∷ scaled_pack freq freq_sf v.frequency 1
      ∷ []

-- The texts of the common block, by their names in `C001`.
pub data TextRegister : Type 0 where
  mn md opt vr sn : TextRegister

abbrev pub text_packs : MeterDevice → List (TextRegister × String)
text_packs d =
    (mn, d.manufacturer)
    ∷ (md, d.model)
    ∷ (opt, d.options)
    ∷ (vr, d.fw_version)
    ∷ (sn, d.serial_number)
    ∷ []

-- The words that `startListener` writes: the common block and the model's head and end.
pub data Word : Type 0 where
  c001_id c001_l c001_da m21x_id m21x_l m_end_float m20x_id m20x_l m_end : Word

-- A number of the source, the configured slave id, or the size of a block.
pub data Content : Type 0 where
  number : ℕ → Content
  slave_id : ℤ → Content
  c001_size m21x_size m20x_size : Content

abbrev pub model_words : (use_float_model : Bool) → List (Word × Content)
model_words true = (m21x_id, number 213) ∷ (m21x_l, m21x_size) ∷ (m_end_float, number 0xFFFF) ∷ []
model_words false = (m20x_id, number 203) ∷ (m20x_l, m20x_size) ∷ (m_end, number 0xFFFF) ∷ []

-- The four bytes "SunS" that `C001::SID` is packed with.
abbrev pub sunspec_id : ℕ
sunspec_id = 0x53756e53

abbrev pub static_words : (use_float_model : Bool) → (id : ℤ) → List (Word × Content)
static_words use_float_model id =
    (c001_id, number 1) ∷ (c001_l, c001_size) ∷ (c001_da, slave_id id) ∷ model_words use_float_model
