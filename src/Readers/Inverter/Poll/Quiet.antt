-- ===== src/Readers/Inverter/Poll/Quiet.antt =====
-- That an inverter's consumers are told of its device once, and of its availability on change only.
use mathlib.Core.Path.{subst}
use fronius_bridge.Prelude.{
  ◌+◌, ◌≤◌, ◌≡◌, refl, sym, ap, ◌∙◌, String, Bool, true, false, ◌&&◌, Option, none, some, List, [],
  ◌∷◌, ◌++◌, if◌then◌else◌, if-elim, taken, Eq, text_eq, arith,
}
use fronius_bridge.Doubles.{Doubles}
use fronius_bridge.Devices.{InverterDevice}
use fronius_bridge.ChangeGate.{changed, keep, forward, NoRepeat, forward_refines}
use fronius_bridge.Modbus.{Errors, ModbusSeverity, fatal, transient, cancelled, unnamed}
use fronius_bridge.Readers.Inverter.{InverterEvents}
use fronius_bridge.Readers.Inverter.Poll.{
  InverterMaster, Callbacks, InverterStep, ready, unavailable, failed, poll, availability, Turned,
  publish_availability, on_device_error, step_inverter, run_inverter,
}
use fronius_bridge.Readers.Inverter.Poll.Calm.{
  held, states, devices_in, states-append, devices_in-append, Calm, read_all-Calm,
}

abbrev pub reports : {E F : Type 0} → List (InverterStep E F) → List String
reports [] = []
reports (ready ∷ ss) = "connected" ∷ reports ss
reports (unavailable ∷ ss) = "disconnected" ∷ reports ss
reports (failed x ∷ ss) = reports ss
reports (poll p ∷ ss) = reports ss

module _ {E F : Type 0} (errors : Errors E) (dbl : Doubles F) (name : String)
    (callbacks : Callbacks) ⦃d : Eq (InverterDevice F)⦄ ⦃e : Eq InverterEvents⦄ where
  -- A step says what the gate lets through of its report, and tells of a device only if none was known.
  Faithful : InverterStep E F → InverterMaster F → Turned F → Type 0
  Faithful s m (m', ms) =
      ((ss : List (InverterStep E F))
        → states ms ++ forward m'.availability_gate (reports ss)
          ≡ forward m.availability_gate (reports (s ∷ ss)))
      × (devices_in ms + held m.device_gate ≤ held m'.device_gate)

  emitted :
      (b : Bool) (s : String) (rest : List String)
      → (states {F = F} (if b then availability s ∷ [] else []) ++ rest ≡ keep b s rest)
        × (devices_in {F = F} (if b then availability s ∷ [] else []) ≡ 0)
  emitted true s rest = (refl, refl)
  emitted false s rest = (refl, refl)

  report-Faithful :
      (s : InverterStep E F) (state : String) (m m' : InverterMaster F)
      → ((ss : List (InverterStep E F)) → reports (s ∷ ss) ≡ state ∷ reports ss)
      → callbacks.has_availability_callback ≡ true
      → m'.availability_gate ≡ m.availability_gate
      → m'.device_gate ≡ m.device_gate
      → Faithful s m (publish_availability errors dbl name callbacks state m')
  unfolding publish_availability forward Faithful
  report-Faithful s state m m' told wired g h =
      taken (Faithful s m) callbacks.has_availability_callback _ _ wired (
        (λ ss.
            (emitted (changed m'.availability_gate state).1 state
              (forward (changed m'.availability_gate state).0 (reports ss))).0
            ∙ ap (λ x. forward x (state ∷ reports ss)) g
            ∙ ap (forward m.availability_gate) (sym (told ss))),
        omega (arith, ap held h, (emitted (changed m'.availability_gate state).1 state []).1),
      )

  Calm-Faithful :
      (s : InverterStep E F) (m : InverterMaster F) (t : Turned F)
      → ((ss : List (InverterStep E F)) → reports (s ∷ ss) ≡ reports ss)
      → Calm m t
      → Faithful s m t
  unfolding Faithful
  Calm-Faithful s m (m', ms) told (g, st, c) = (
    (λ ss.
        ap (λ l. l ++ forward m'.availability_gate (reports ss)) st
        ∙ ap (λ x. forward x (reports ss)) g
        ∙ ap (forward m.availability_gate) (sym (told ss))),
    c,
  )

  error-Calm :
      (x : ModbusSeverity) (m : InverterMaster F)
      → Calm m (on_device_error errors dbl name callbacks x m)
  error-Calm fatal m = (refl, refl, omega arith)
  error-Calm transient m = (refl, refl, omega arith)
  error-Calm cancelled m = (refl, refl, omega arith)
  error-Calm unnamed m = (refl, refl, omega arith)

  step-Faithful :
      (s : InverterStep E F) (m : InverterMaster F)
      → callbacks.has_availability_callback ≡ true
      → Faithful s m (step_inverter errors dbl name callbacks s m)
  unfolding step_inverter
  step-Faithful ready m wired =
      report-Faithful ready "connected" m (record m { is_connected = true }) (λ ss. refl) wired refl
        refl
  step-Faithful unavailable m wired =
      report-Faithful unavailable "disconnected" m (record m { is_connected = false }) (λ ss. refl)
        wired refl refl
  step-Faithful (failed x) m wired =
      Calm-Faithful (failed x) m _ (λ ss. refl) (error-Calm (errors.severity x) m)
  step-Faithful (poll p) m wired =
      Calm-Faithful (poll p) m _ (λ ss. refl)
        (if-elim {A = Turned F} (Calm m) (p.is_running && m.is_connected)
          (read_all-Calm errors dbl name callbacks p m) (refl, refl, omega arith))

  run-Faithful :
      (ss : List (InverterStep E F)) (m : InverterMaster F)
      → callbacks.has_availability_callback ≡ true
      → (states (run_inverter errors dbl name callbacks ss m).1
          ≡ forward m.availability_gate (reports ss))
        × (devices_in (run_inverter errors dbl name callbacks ss m).1 + held m.device_gate
            ≤ held (run_inverter errors dbl name callbacks ss m).0.device_gate)
  unfolding run_inverter Faithful forward
  run-Faithful [] m wired = (refl, omega arith)
  run-Faithful (s ∷ ss) m wired =
      let one = step_inverter errors dbl name callbacks s m in
      let rest = run_inverter errors dbl name callbacks ss one.0 in
      let (a, b) = step-Faithful s m wired in
      let (c, d) = run-Faithful ss one.0 wired in
      (
        states-append one.1 rest.1 ∙ ap (λ l. states one.1 ++ l) c ∙ a ss,
        omega (arith, b, d, devices_in-append one.1 rest.1),
      )

  held_at_most : {A : Type 0} (o : Option A) → held o ≤ 1
  held_at_most none = omega arith
  held_at_most (some x) = omega arith

  -- Over any sequence of polls, readiness reports and errors, the availability messages are what a gate lets
  -- through of the reports, hence never repeat the last state, and the device is published at most once, and not
  -- at all if it was known before.
  pub run_inverter-quiet :
      (ss : List (InverterStep E F)) (m : InverterMaster F)
      → callbacks.has_availability_callback ≡ true
      → let ms = (run_inverter errors dbl name callbacks ss m).1 in
        (states ms ≡ forward m.availability_gate (reports ss))
        × NoRepeat m.availability_gate (states ms)
        × (devices_in ms + held m.device_gate ≤ 1)
  run_inverter-quiet ss m wired =
      let (a, b) = run-Faithful ss m wired in
      (
        a,
        subst (NoRepeat m.availability_gate) (sym a)
            (forward_refines m.availability_gate (reports ss)).1,
        omega (arith, b, held_at_most (run_inverter errors dbl name callbacks ss m).0.device_gate),
      )
