-- ===== src/Slave/Update/Shown.antt =====
-- What the registers show after an update.
use fronius_bridge.Prelude.{
  taken, ◌≡◌, String, Bool, true, false, Option, none, some, List, [], ◌∷◌, All,
}
use fronius_bridge.Devices.{MeterValues}
use fronius_bridge.Shutdown.{SignalHandler}
use fronius_bridge.Config.Validate.Spec.{Pairs}
use fronius_bridge.Slave.Registers.{Register, Pack}
use fronius_bridge.Slave.Registers.Meaning.{meant, float_packs-meant, scaled_packs-meant}
use fronius_bridge.Slave.Compatible.{Compatible, float_packs-Pairs, scaled_packs-Pairs}
use fronius_bridge.Slave.Update.{Packing, MeterSlave, pack_all, update_values, packs_of, handle}

-- What is relied on of `packToModbus` in a mapping that is large enough for the model: a value that the register
-- can hold can be read back, to the precision of the call, and a compatible call, also one that fails, leaves what
-- another has written.
pub record IsPacking {E R F : Type 0} (packing : Packing E R F) : Type 1 where
  pub Fits : R → Type 0
  pub Shows : Pack F → R → Type 0
  -- The value, at the precision of the call, is in the register's range.
  pub Holds : Pack F → Type 0
  pub fits : (p : Pack F) (m : R) → Fits m → Fits (packing.pack p m).0
  pub written : (p : Pack F) (m : R) → Fits m → Holds p → Shows p (packing.pack p m).0
  pub kept :
      (p q : Pack F) (m : R) → Compatible p q → Fits m → Shows p m → Shows p (packing.pack q m).0

module _ {E R F : Type 0} (packing : Packing E R F) (law : IsPacking packing) (name : String) where
  pack_all-kept :
      (p : Pack F) (ps : List (Pack F)) (m : R) (h : SignalHandler)
      → All (Compatible p) ps
      → law.Fits m
      → law.Shows p m
      → law.Shows p (pack_all packing name packing.pack ps m h).0
  unfolding pack_all
  pack_all-kept p [] m h c f s = s
  pack_all-kept p (q ∷ qs) m h (c, cs) f s =
      pack_all-kept p qs (packing.pack q m).0 (handle packing name (packing.pack q m).1 h) cs
        (law.fits q m f) (law.kept p q m c f s)

  pack_all-shown :
      (ps : List (Pack F)) (m : R) (h : SignalHandler)
      → Pairs Compatible ps
      → law.Fits m
      → All (λ p. law.Holds p → law.Shows p (pack_all packing name packing.pack ps m h).0) ps
  unfolding pack_all
  pack_all-shown [] m h c f = tt
  pack_all-shown (p ∷ ps) m h (c, cs) f =
      let m' = (packing.pack p m).0 in
      let h' = handle packing name (packing.pack p m).1 h in
      (
        λ holds. pack_all-kept p ps m' h' c (law.fits p m f) (law.written p m f holds),
        pack_all-shown ps m' h' cs (law.fits p m f),
      )

  packs_of-Pairs :
      (use_float_model : Bool) (v : MeterValues F)
      → Pairs Compatible (packs_of packing name use_float_model v)
  packs_of-Pairs true v = float_packs-Pairs v
  packs_of-Pairs false v = scaled_packs-Pairs v

  packs_of-meant :
      (Q : Pack F → Type 0) (use_float_model : Bool) (v : MeterValues F) (r : Register)
      → All Q (packs_of packing name use_float_model v)
      → Q (meant use_float_model v r)
  packs_of-meant Q true v r h = float_packs-meant Q v r h
  packs_of-meant Q false v r h = scaled_packs-meant Q v r h

  abbrev pub ShownIn : Pack F → Option R → Type 0
  ShownIn p none = ⊥
  ShownIn p (some m) = law.Shows p m

  -- After an update of a running slave that has a mapping and gets memory, whichever model is configured: each
  -- register of the model shows the quantity of the new reading that its name means, if it can hold it, whatever
  -- the other quantities are and whether they can be shown. The models have no registers for reactive energies.
  pub update_values-ShownIn :
      (use_float_model : Bool) (v : MeterValues F) (m : R) (updated : Bool) (h : SignalHandler)
      (r : Register)
      → law.Fits m
      → h.is_running ≡ true
      → law.Holds (meant use_float_model v r)
      → ShownIn
          (meant use_float_model v r)
          (update_values packing name use_float_model true v
            (record { regs = some m; is_device_updated = updated })
            h).0.regs
  unfolding update_values
  update_values-ShownIn use_float_model v m updated h r f run holds =
      taken {A = MeterSlave R × SignalHandler} (λ s. ShownIn (meant use_float_model v r) s.0.regs)
        h.is_running _ _ run
        (packs_of-meant
          (λ p.
            law.Holds p
            → law.Shows p
                (pack_all packing name packing.pack (packs_of packing name use_float_model v) m
                  h).0)
          use_float_model v r
          (pack_all-shown (packs_of packing name use_float_model v) m h
            (packs_of-Pairs use_float_model v) f)
          holds)
