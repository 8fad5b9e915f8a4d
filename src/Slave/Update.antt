-- ===== src/Slave/Update.antt =====
-- MeterSlave::updateValues and MeterSlave::updateDevice. A mapping is replaced as a whole, so a mapping is a
-- value; libfronius' `packToModbus` is a parameter.
pub mod Shown
use fronius_bridge.Prelude.{
  ℕ, String, append, Bool, true, false, Option, none, some, List, [], ◌∷◌, Result, ok, err,
  if◌then◌else◌,
}
use fronius_bridge.Devices.{MeterValues, MeterDevice}
use fronius_bridge.Shutdown.{SignalHandler}
use fronius_bridge.Modbus.{Errors, enomem, handle_result}
use fronius_bridge.Slave.Registers.{Pack, float_packs, scaled_packs, TextRegister, text_packs}

-- The mapping before a call to the mapping after it, and what the call returns.
pub record Packing (E R F : Type 0) : Type 0 where
  pub errors : Errors E
  pub pack : Pack F → R → R × Result E (Unit {0})
  pub pack_text : TextRegister × String → R → R × Result E (Unit {0})

pub record MeterSlave (R : Type 0) : Type 0 where
  pub regs : Option R
  pub is_device_updated : Bool

module _ {E R F : Type 0} (packing : Packing E R F) (name : String) where
  abbrev pub slave_reason : String
  slave_reason = append "meter slave '" (append name "' Modbus error")

  abbrev pub handle : Result E (Unit {0}) → SignalHandler → SignalHandler
  handle result h = (handle_result packing.errors slave_reason result h).0

  -- A result that is an error is handled, and the next register packed all the same.
  unfoldable pub pack_all :
      {P : Type 0}
      → (P → R → R × Result E (Unit {0}))
      → List P
      → R
      → SignalHandler
      → R × SignalHandler
  unfolding handle_result
  pack_all pack [] m h = (m, h)
  pack_all pack (p ∷ ps) m h = let (m', result) = pack p m in pack_all pack ps m' (handle result h)

  abbrev packs_of : (use_float_model : Bool) → MeterValues F → List (Pack F)
  packs_of true v = float_packs v
  packs_of false v = scaled_packs v

  abbrev pub out_of_memory : MeterSlave R → SignalHandler → MeterSlave R × SignalHandler
  out_of_memory s h = (s, handle (err (packing.errors.custom enomem)) h)

  abbrev pub store_values :
      (use_float_model : Bool)
      → MeterValues F
      → R
      → MeterSlave R
      → SignalHandler
      → MeterSlave R × SignalHandler
  store_values use_float_model v old s h =
      let (new, h') = pack_all packing.pack (packs_of use_float_model v) old h in
      (record s { regs = some new }, h')

  abbrev pub store_device :
      MeterDevice → R → MeterSlave R → SignalHandler → MeterSlave R × SignalHandler
  store_device d old s h =
      let (new, h') = pack_all packing.pack_text (text_packs d) old h in
      (record s { regs = some new; is_device_updated = true }, h')

  -- The next mapping starts as a copy of the current one, if there is one and the allocation succeeds.
  abbrev pub renew :
      (allocated : Bool)
      → (R → MeterSlave R → SignalHandler → MeterSlave R × SignalHandler)
      → MeterSlave R
      → SignalHandler
      → MeterSlave R × SignalHandler
  renew allocated store s h = elim s.regs [
    | none ↦ out_of_memory s h
    | some old ↦ if allocated then store old s h else out_of_memory s h
  ]

  unfoldable pub update_values :
      (use_float_model allocated : Bool)
      → MeterValues F
      → MeterSlave R
      → SignalHandler
      → MeterSlave R × SignalHandler
  unfolding pack_all float_packs scaled_packs
  update_values use_float_model allocated v s h =
      if h.is_running then renew allocated (store_values use_float_model v) s h else (s, h)

  unfoldable pub update_device :
      (allocated : Bool) → MeterDevice → MeterSlave R → SignalHandler → MeterSlave R × SignalHandler
  unfolding pack_all
  update_device allocated d s h =
      if h.is_running
      then (if s.is_device_updated then (s, h) else renew allocated (store_device d) s h)
      else (s, h)
