-- ===== src/Readers/Inverter/Poll/Calm.antt =====
-- What a poll says of the availability and of the device.
use fronius_bridge.Prelude.{
  ℕ, suc, ◌+◌, ◌≤◌, ◌≡◌, refl, ap, ◌∙◌, String, Bool, true, false, ◌&&◌, Option, none, some, List,
  [], ◌∷◌, ◌++◌, has_value, if-elim, if-split, ◌==◌, Result-cases, Eq, text_eq, inl, inr, arith,
}
use fronius_bridge.Doubles.{Doubles}
use fronius_bridge.Devices.{InverterValues, InverterDevice}
use fronius_bridge.ChangeGate.{changed}
use fronius_bridge.Modbus.{Errors}
use fronius_bridge.Readers.Json.{Document}
use fronius_bridge.Readers.Inverter.Documents.{events_document, device_document, inverter_document}
use fronius_bridge.Readers.Inverter.{
  InverterReads, EventReads, DeviceReads, InverterEvents, read_device, read_inverter, read_events,
}
use fronius_bridge.Readers.Inverter.Poll.{
  InverterMaster, Callbacks, InverterPoll, Message, availability, device_message, values_message,
  events_message, shutdown_request, device_retry, Turned, update_inverter_device,
  update_inverter_values, update_inverter_events, after_device, after_values, after_events,
  publish_device, publish_values, publish_events, read_all,
}

abbrev pub held : {A : Type 0} → Option A → ℕ
held none = 0
held (some x) = 1

held_none : {A : Type 0} (o : Option A) → has_value o ≡ false → held o ≡ 0
held_none none h = refl
held_none (some x) h = cc

held-changed : {A : Type 0} ⦃eq : Eq A⦄ (o : Option A) (x : A) → held (changed o x).0 ≡ 1
unfolding changed
held-changed none x = refl
held-changed (some y) x = if-elim {A = Option _ × Bool} (λ r. held r.0 ≡ 1) (y == x) refl refl

module _ {F : Type 0} where
  -- The availability messages, and the number of device messages.
  abbrev pub states : List (Message F) → List String
  states [] = []
  states (availability s ∷ ms) = s ∷ states ms
  states (device_message doc dev ∷ ms) = states ms
  states (values_message doc v ∷ ms) = states ms
  states (events_message doc ev ∷ ms) = states ms
  states (shutdown_request r ∷ ms) = states ms
  states (device_retry ∷ ms) = states ms

  abbrev pub devices_in : List (Message F) → ℕ
  devices_in [] = 0
  devices_in (availability s ∷ ms) = devices_in ms
  devices_in (device_message doc dev ∷ ms) = suc (devices_in ms)
  devices_in (values_message doc v ∷ ms) = devices_in ms
  devices_in (events_message doc ev ∷ ms) = devices_in ms
  devices_in (shutdown_request r ∷ ms) = devices_in ms
  devices_in (device_retry ∷ ms) = devices_in ms

  pub states-append : (ms ns : List (Message F)) → states (ms ++ ns) ≡ states ms ++ states ns
  states-append [] ns = refl
  states-append (availability s ∷ ms) ns = ap (λ l. s ∷ l) (states-append ms ns)
  states-append (device_message doc dev ∷ ms) ns = states-append ms ns
  states-append (values_message doc v ∷ ms) ns = states-append ms ns
  states-append (events_message doc ev ∷ ms) ns = states-append ms ns
  states-append (shutdown_request r ∷ ms) ns = states-append ms ns
  states-append (device_retry ∷ ms) ns = states-append ms ns

  pub devices_in-append :
      (ms ns : List (Message F)) → devices_in (ms ++ ns) ≡ devices_in ms + devices_in ns
  devices_in-append [] ns = omega arith
  devices_in-append (availability s ∷ ms) ns = devices_in-append ms ns
  devices_in-append (device_message doc dev ∷ ms) ns = omega (arith, devices_in-append ms ns)
  devices_in-append (values_message doc v ∷ ms) ns = devices_in-append ms ns
  devices_in-append (events_message doc ev ∷ ms) ns = devices_in-append ms ns
  devices_in-append (shutdown_request r ∷ ms) ns = devices_in-append ms ns
  devices_in-append (device_retry ∷ ms) ns = devices_in-append ms ns

  -- Nothing is said of the availability, and a device only if none was known.
  abbrev pub Calm : InverterMaster F → Turned F → Type 0
  Calm m (m', ms) =
      (m'.availability_gate ≡ m.availability_gate)
      × (states ms ≡ [])
      × (devices_in ms + held m.device_gate ≤ held m'.device_gate)

  Calm-append :
      (m m1 m2 : InverterMaster F) (ms ns : List (Message F))
      → Calm m (m1, ms)
      → Calm m1 (m2, ns)
      → Calm m (m2, ms ++ ns)
  Calm-append m m1 m2 ms ns (g, s, c) (h, t, k) =
      (h ∙ g, states-append ms ns ∙ cc, omega (arith, devices_in-append ms ns))

module _ {E F : Type 0} (errors : Errors E) (dbl : Doubles F) (name : String)
    (callbacks : Callbacks) ⦃d : Eq (InverterDevice F)⦄ ⦃e : Eq InverterEvents⦄ where
  publish_device-states :
      (b : Bool) (o : Option (Document F × InverterDevice F))
      → (states (publish_device errors dbl name callbacks b o) ≡ [])
        × (devices_in (publish_device errors dbl name callbacks b o) ≤ 1)
  publish_device-states true none = (refl, omega arith)
  publish_device-states true (some (doc, dev)) = (refl, omega arith)
  publish_device-states false none = (refl, omega arith)
  publish_device-states false (some x) = (refl, omega arith)

  device-Calm :
      (p : InverterPoll E F) (m : InverterMaster F) (runs : Bool) (r : DeviceReads E F)
      → Calm m (
          after_device errors dbl name callbacks p m
            (update_inverter_device errors dbl name callbacks runs r m))
  unfolding update_inverter_device
  device-Calm p m false r = (refl, refl, omega arith)
  device-Calm p m true r =
      if-split (λ x. Calm m (after_device errors dbl name callbacks p m x))
        (has_value m.device_gate) _ _ (λ h. (refl, refl, omega arith))
        (λ h. elim (Result-cases (read_device dbl r)) [
          | inl (dev, k) ↦ rw k (
              let (x, y) =
                publish_device-states (true && callbacks.has_device_callback && p.publishes_device)
                  (some (device_document dbl dev, dev)) in
              (refl, x, omega (arith, held_none m.device_gate h, held-changed m.device_gate dev)))
          | inr (x, k) ↦ rw k ((refl, refl, omega arith))
        ])

  publish_values-states :
      (b : Bool) (o : Option (Document F × InverterValues F))
      → (states (publish_values errors dbl name callbacks b o) ≡ [])
        × (devices_in (publish_values errors dbl name callbacks b o) ≡ 0)
  publish_values-states true none = (refl, refl)
  publish_values-states true (some (doc, v)) = (refl, refl)
  publish_values-states false none = (refl, refl)
  publish_values-states false (some x) = (refl, refl)

  publish_events-states :
      (b : Bool) (o : Option (Document F × InverterEvents))
      → (states (publish_events errors dbl name callbacks b o) ≡ [])
        × (devices_in (publish_events errors dbl name callbacks b o) ≡ 0)
  publish_events-states true none = (refl, refl)
  publish_events-states true (some (doc, ev)) = (refl, refl)
  publish_events-states false none = (refl, refl)
  publish_events-states false (some x) = (refl, refl)

  values-Calm :
      (p : InverterPoll E F) (m : InverterMaster F) (runs : Bool) (r : InverterReads E F)
      → Calm m (
          after_values errors dbl name callbacks p m
            (update_inverter_values errors dbl name callbacks runs r m))
  unfolding update_inverter_values
  values-Calm p m false r = (refl, refl, omega arith)
  values-Calm p m true r = elim (Result-cases (read_inverter dbl r)) [
    | inl (v, k) ↦ rw k (
        let (x, y) =
          publish_values-states (callbacks.has_value_callback && p.publishes_values)
            (some (inverter_document dbl r v, v)) in
        (refl, x, omega (arith, y)))
    | inr (x, k) ↦ rw k (refl, refl, omega arith)
  ]

  events-Calm :
      (p : InverterPoll E F) (m : InverterMaster F) (runs : Bool) (r : EventReads E)
      → Calm m (
          after_events errors dbl name callbacks p m
            (update_inverter_events errors dbl name callbacks runs r m))
  unfolding update_inverter_events
  events-Calm p m false r = (refl, refl, omega arith)
  events-Calm p m true r = elim (Result-cases (read_events {F = F} dbl r)) [
    | inl (ev, k) ↦ rw k (
        let (x, y) =
          publish_events-states
            ((changed m.events_gate ev).1 && callbacks.has_event_callback && p.publishes_events)
            (some (events_document dbl ev, ev)) in
        (refl, x, omega (arith, y)))
    | inr (x, k) ↦ rw k (refl, refl, omega arith)
  ]

  pub read_all-Calm :
      (p : InverterPoll E F) (m : InverterMaster F)
      → Calm m (read_all errors dbl name callbacks p m)
  unfolding read_all
  read_all-Calm p m =
      let one =
        after_device errors dbl name callbacks p m
          (update_inverter_device errors dbl name callbacks p.runs_device p.device_reads m) in
      let two =
        after_values errors dbl name callbacks p one.0
          (update_inverter_values errors dbl name callbacks p.runs_values p.value_reads one.0) in
      let three =
        after_events errors dbl name callbacks p two.0
          (update_inverter_events errors dbl name callbacks p.runs_events p.event_reads two.0) in
      Calm-append m one.0 three.0 one.1 (two.1 ++ three.1)
        (device-Calm p m p.runs_device p.device_reads)
        (Calm-append one.0 two.0 three.0 two.1 three.1
          (values-Calm p one.0 p.runs_values p.value_reads)
          (events-Calm p two.0 p.runs_events p.event_reads))
