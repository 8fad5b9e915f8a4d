-- ===== src/Readers/Inverter/Inputs.antt =====
-- What is published of the second DC input.
use fronius_bridge.Prelude.{
  ◌≡◌, refl, ap, sym, ◌∙◌, ℤ, pos, clamp, int_beq, ◌<ℤ◌, false, [], ◌∷◌, ok, >>=-eq-ok,
  ok-injective, arith,
}
use fronius_bridge.Doubles.{Doubles}
use fronius_bridge.Devices.{InverterInput, InverterValues}
use fronius_bridge.Readers.Rounding.{round_input, round_inverter}
use fronius_bridge.Readers.Inverter.Documents.{input_object, input_objects}
use fronius_bridge.Readers.Inverter.{
  total, input_a, input_b, InverterReads, no_input, read_input, read_input_if, read_ac,
  read_inverter,
}

unread : (n : ℤ) → pos 2 <ℤ n → int_beq n (pos 2) ≡ false
unread n h = ground arith

both_published : (n : ℤ) → pos 2 <ℤ n → clamp n (pos 1) (pos 2) ≡ pos 2
both_published n h = ground arith

module _ {E F : Type 0} (dbl : Doubles F) where
  read_unread :
      (r : InverterReads E F) (x : InverterInput F) (n : ℤ)
      → pos 2 <ℤ n
      → read_input_if dbl (int_beq n (pos 2)) r input_b ≡ ok x
      → no_input dbl ≡ x
  read_unread r x n more h = cc (ap (λ q. read_input_if dbl q r input_b) (unread n more), h)

  read_inverter-second :
      (r : InverterReads E F) (v : InverterValues F)
      → pos 2 <ℤ r.inputs
      → read_inverter dbl r ≡ ok v
      → v.input2 ≡ round_input dbl (no_input dbl)
  unfolding read_inverter round_inverter
  read_inverter-second r v more h =
      let (_, _, h1) = >>=-eq-ok r.fetched _ h in
      let (ac, _, h2) = >>=-eq-ok (read_ac dbl r) _ h1 in
      let (power, _, h3) = >>=-eq-ok (r.dc_power total) _ h2 in
      let (first, _, h4) = >>=-eq-ok (read_input dbl r input_a) _ h3 in
      let (second, k, h5) =
        >>=-eq-ok (read_input_if dbl (int_beq r.inputs (pos 2)) r input_b) _ h4 in
      ap (λ w. w.input2) (sym (ok-injective _ v h5))
      ∙ ap (round_input dbl) (sym (read_unread r second r.inputs more k))

  -- An inverter with more than two inputs has two published, and the second of them is not read: its values are
  -- the zeros that the record starts with, whatever the inverter reports.
  pub second_input_blank :
      (r : InverterReads E F) (v : InverterValues F)
      → pos 2 <ℤ r.inputs
      → read_inverter dbl r ≡ ok v
      → input_objects dbl r.is_hybrid r.inputs v
        ≡ input_object dbl r.is_hybrid (pos 1) v.input1
          ∷ input_object dbl r.is_hybrid (pos 2) (round_input dbl (no_input dbl))
          ∷ []
  second_input_blank r v more h =
      rw (both_published r.inputs more, read_inverter-second r v more h) refl
