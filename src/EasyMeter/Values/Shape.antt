-- ===== src/EasyMeter/Values/Shape.antt =====
-- How the EBZ meter's values compare with those of a Fronius meter and with the configuration.
use fronius_bridge.Prelude.{
  ℕ, ◌≡◌, refl, ap, sym, ◌∙◌, pos, String, Bool, true, false, ◌||◌, Option, none, some, [], ◌∷◌,
  ◌==◌, text_eq, if◌then◌else◌, ok, throw_if, >>=-eq-ok, ok-injective, arith,
}
use fronius_bridge.Doubles.{Doubles, zero_double, round_to}
use fronius_bridge.Config.Types.{GridConfig}
use fronius_bridge.Config.Yaml.{Yaml, ParseError, not_in_range, number_of, or_default}
use fronius_bridge.Config.Sections.{parse_grid}
use fronius_bridge.Devices.{MeterValues}
use fronius_bridge.EasyMeter.Obis.{Reading}
use fronius_bridge.EasyMeter.Values.{derive_values, easy_meter_document}
use fronius_bridge.Readers.Rounding.{round_meter}
use fronius_bridge.Readers.Json.{Document}
use fronius_bridge.Readers.Meter.Phases.{meter_document, meter_phase_objects}

abbrev pub without : {F : Type 0} → String → Document F → Document F
without key [] = []
without key ((k, x) ∷ fs) = if k == key then without key fs else (k, x) ∷ without key fs

-- The document of the EBZ meter is that of a Fronius meter with three phases without the total current.
pub easy_meter_document-without :
    {F : Type 0} (dbl : Doubles F) (grid : GridConfig F) (v : MeterValues F)
    → easy_meter_document dbl grid v ≡ without "current" (meter_document dbl (pos 3) v)
unfolding easy_meter_document meter_document meter_phase_objects
easy_meter_document-without dbl grid v = refl

-- What is relied on of the order on doubles: less is less or equal, and the default power factor is positive.
pub record IsOrdered {F : Type 0} (dbl : Doubles F) : Type 0 where
  pub less-less_eq : (x y : F) → dbl.less x y ≡ true → dbl.less_eq x y ≡ true
  pub default_positive : dbl.less_eq (dbl.literal "0.95") (dbl.literal "0.0") ≡ false

module _ {N F : Type 0} (yaml : Yaml N F) (dbl : Doubles F) (law : IsOrdered dbl) where
  not_less : (x y : F) → dbl.less_eq x y ≡ false → dbl.less x y ≡ false
  not_less x y h = ground (arith, law.less-less_eq x y)

  passed : (x y : Bool) (e : ParseError) → throw_if (x || y) e ≡ ok tt → x ≡ false
  passed x y e h = ground arith

  parse_grid-positive :
      (node : Option N) (grid : GridConfig F)
      → parse_grid yaml dbl node ≡ ok grid
      → dbl.less_eq grid.power_factor (dbl.literal "0.0") ≡ false
  unfolding parse_grid
  parse_grid-positive none grid h =
      ap (λ g. dbl.less_eq g.power_factor (dbl.literal "0.0")) (sym (ok-injective _ grid h))
      ∙ law.default_positive
  parse_grid-positive (some node) grid h =
      let factor = or_default (number_of yaml node "power_factor") (dbl.literal "0.95") in
      let (_, c, h1) =
        >>=-eq-ok
          (throw_if (dbl.less_eq factor (dbl.literal "0.0") || dbl.less (dbl.literal "1.0") factor)
            (not_in_range "grid.power_factor"))
          _ h in
      let (_, _, h2) =
        >>=-eq-ok
          (throw_if
            (dbl.less_eq (or_default (number_of yaml node "frequency") (dbl.literal "50.0"))
              (dbl.literal "0.0"))
            (not_in_range "grid.frequency"))
          _ h1 in
      ap (λ g. dbl.less_eq g.power_factor (dbl.literal "0.0")) (sym (ok-injective _ grid h2))
      ∙ passed _ _ _ c

  -- With a grid that the parser accepts, whatever the meter reports, the EBZ meter's exported active energy is
  -- zero: the case of a negative power factor is never taken.
  pub derive_values-no_export :
      (node : Option N) (grid : GridConfig F) (now : ℕ) (r : Reading F)
      → parse_grid yaml dbl node ≡ ok grid
      → (derive_values dbl grid now r).active_energy_export ≡ round_to dbl (zero_double dbl) 0
  unfolding derive_values round_meter
  derive_values-no_export node grid now r h =
      ap (λ b. round_to dbl (if b then r.active_energy else zero_double dbl) 0)
        (not_less grid.power_factor (dbl.literal "0.0") (parse_grid-positive node grid h))
