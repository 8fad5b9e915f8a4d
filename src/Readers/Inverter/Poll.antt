-- ===== src/Readers/Inverter/Poll.antt =====
-- InverterMaster::runLoop, one iteration at a time, and the callbacks of libfronius that may run between them.
pub mod Calm
pub mod Quiet
use fronius_bridge.Prelude.{
  ℕ, ℤ, String, append, Bool, true, false, ◌&&◌, not, Option, none, some, List, [], ◌∷◌, ◌++◌,
  has_value, if◌then◌else◌, Result, ok, err, ◌>>=◌, Eq, text_eq,
}
use fronius_bridge.Doubles.{Doubles}
use fronius_bridge.Devices.{InverterValues, InverterDevice}
use fronius_bridge.ChangeGate.{changed}
use fronius_bridge.Modbus.{Errors, ModbusSeverity, fatal, transient, cancelled, unnamed, eintr}
use fronius_bridge.Readers.Json.{Document}
use fronius_bridge.Readers.Inverter.Documents.{events_document, device_document, inverter_document}
use fronius_bridge.Readers.Inverter.{
  InverterReads, EventReads, DeviceReads, InverterEvents, read_inverter, read_events, read_device,
}

-- The members that the loop and the callbacks of libfronius change.
pub record InverterMaster (F : Type 0) : Type 0 where
  pub is_connected : Bool
  pub availability_gate : Option String
  pub device_gate : Option (InverterDevice F)
  pub events_gate : Option InverterEvents
  pub values : Option (Document F × InverterValues F)
  pub events : Option (Document F × InverterEvents)
  pub device : Option (Document F × InverterDevice F)

-- Which callbacks are set.
pub record Callbacks : Type 0 where
  pub has_value_callback : Bool
  pub has_event_callback : Bool
  pub has_device_callback : Bool
  pub has_availability_callback : Bool

-- One iteration: the running flag at each of its tests, and what the getters return.
pub record InverterPoll (E F : Type 0) : Type 0 where
  pub is_running : Bool
  pub runs_device : Bool
  pub publishes_device : Bool
  pub runs_values : Bool
  pub publishes_values : Bool
  pub runs_events : Bool
  pub publishes_events : Bool
  pub device_reads : DeviceReads E F
  pub value_reads : InverterReads E F
  pub event_reads : EventReads E

pub data InverterStep (E F : Type 0) : Type 0 where
  ready unavailable : InverterStep E F
  failed : E → InverterStep E F
  poll : InverterPoll E F → InverterStep E F

-- What leaves the master.
pub data Message (F : Type 0) : Type 0 where
  availability : String → Message F
  device_message : Document F → InverterDevice F → Message F
  values_message : Document F → InverterValues F → Message F
  events_message : Document F → InverterEvents → Message F
  shutdown_request : String → Message F
  device_retry : Message F

-- A member function's work: the master after it, and the messages, oldest first.
abbrev pub Turned : Type 0 → Type 0
Turned F = InverterMaster F × List (Message F)

module _ {E F : Type 0} (errors : Errors E) (dbl : Doubles F) (name : String)
    (callbacks : Callbacks) ⦃d : Eq (InverterDevice F)⦄ ⦃e : Eq InverterEvents⦄ where
  abbrev lost : InverterMaster F → Turned F
  lost m = (record m { is_connected = false }, [])

  -- `updateDeviceAndJson`, whose result tells whether to publish: a known device is not read again.
  unfoldable pub update_inverter_device :
      (runs : Bool) → DeviceReads E F → InverterMaster F → Result E (Bool × InverterMaster F)
  unfolding read_device device_document changed
  update_inverter_device false r m = err (errors.custom eintr)
  update_inverter_device true r m =
      if has_value m.device_gate
      then ok (false, m)
      else (read_device dbl r >>= λ dev. ok (
        true,
        record m {
          device_gate = (changed m.device_gate dev).0;
          device = some (device_document dbl dev, dev);
        },
      ))

  unfoldable pub update_inverter_values :
      (runs : Bool) → InverterReads E F → InverterMaster F → Result E (InverterMaster F)
  unfolding read_inverter inverter_document
  update_inverter_values false r m = err (errors.custom eintr)
  update_inverter_values true r m =
      read_inverter dbl r >>= λ v. ok (record m { values = some (inverter_document dbl r v, v) })

  unfoldable pub update_inverter_events :
      (runs : Bool) → EventReads E → InverterMaster F → Result E (Bool × InverterMaster F)
  unfolding changed
  update_inverter_events false r m = err (errors.custom eintr)
  update_inverter_events true r m = read_events dbl r >>= λ ev.
      (let (gate, is_changed) = changed m.events_gate ev in
        ok
          (is_changed, record m { events_gate = gate; events = some (events_document dbl ev, ev) }))

  abbrev publish_device : Bool → Option (Document F × InverterDevice F) → List (Message F)
  publish_device true (some (doc, dev)) = device_message doc dev ∷ []
  publish_device true none = []
  publish_device false _ = []

  abbrev publish_values : Bool → Option (Document F × InverterValues F) → List (Message F)
  publish_values true (some (doc, v)) = values_message doc v ∷ []
  publish_values true none = []
  publish_values false _ = []

  abbrev publish_events : Bool → Option (Document F × InverterEvents) → List (Message F)
  publish_events true (some (doc, ev)) = events_message doc ev ∷ []
  publish_events true none = []
  publish_events false _ = []

  abbrev pub after_device :
      InverterPoll E F → InverterMaster F → Result E (Bool × InverterMaster F) → Turned F
  after_device p m (err x) = lost m
  after_device p m (ok (is_new, m')) =
      (m', publish_device (is_new && callbacks.has_device_callback && p.publishes_device) m'.device)

  abbrev pub after_values :
      InverterPoll E F → InverterMaster F → Result E (InverterMaster F) → Turned F
  after_values p m (err x) = lost m
  after_values p m (ok m') =
      (m', publish_values (callbacks.has_value_callback && p.publishes_values) m'.values)

  abbrev pub after_events :
      InverterPoll E F → InverterMaster F → Result E (Bool × InverterMaster F) → Turned F
  after_events p m (err x) = lost m
  after_events p m (ok (is_changed, m')) = (
    m',
    publish_events (is_changed && callbacks.has_event_callback && p.publishes_events) m'.events,
  )

  -- The device, the values and the events, each also where one before could not be read.
  unfoldable pub read_all : InverterPoll E F → InverterMaster F → Turned F
  unfolding update_inverter_device update_inverter_values update_inverter_events
  read_all p m =
      let (m1, ds) = after_device p m (update_inverter_device p.runs_device p.device_reads m) in
      let (m2, vs) = after_values p m1 (update_inverter_values p.runs_values p.value_reads m1) in
      let (m3, es) = after_events p m2 (update_inverter_events p.runs_events p.event_reads m2) in
      (m3, ds ++ (vs ++ es))

  -- `publishAvailability`
  unfoldable pub publish_availability : String → InverterMaster F → Turned F
  unfolding changed
  publish_availability state m =
      let (gate, emit) = changed m.availability_gate state in
      if callbacks.has_availability_callback
      then (record m { availability_gate = gate }, if emit then availability state ∷ [] else [])
      else (m, [])

  abbrev pub on_device_error : ModbusSeverity → InverterMaster F → Turned F
  on_device_error fatal m =
      (m, shutdown_request (append "inverter '" (append name "' Modbus error")) ∷ [])
  on_device_error transient m = (record m { is_connected = false }, device_retry ∷ [])
  on_device_error cancelled m = (record m { is_connected = false }, [])
  on_device_error unnamed m = (m, [])

  unfoldable pub step_inverter : InverterStep E F → InverterMaster F → Turned F
  unfolding read_all publish_availability
  step_inverter ready m = publish_availability "connected" (record m { is_connected = true })
  step_inverter unavailable m =
      publish_availability "disconnected" (record m { is_connected = false })
  step_inverter (failed x) m = on_device_error (errors.severity x) m
  step_inverter (poll p) m = if p.is_running && m.is_connected then read_all p m else (m, [])

  unfoldable pub run_inverter : List (InverterStep E F) → InverterMaster F → Turned F
  unfolding step_inverter
  run_inverter [] m = (m, [])
  run_inverter (s ∷ ss) m =
      let (m1, before) = step_inverter s m in
      let (m2, after) = run_inverter ss m1 in (m2, before ++ after)

  -- The destructor, once the worker has been joined: the last availability.
  unfoldable pub leave_inverter : InverterMaster F → Turned F
  unfolding publish_availability
  leave_inverter m = publish_availability "disconnected" (record m { is_connected = false })
