-- ===== src/Readers/Meter/Poll.antt =====
-- FroniusMeter::runLoop, one iteration at a time, and the callbacks of libfronius that may run between them.
use fronius_bridge.Prelude.{
  String, append, Bool, true, false, ◌&&◌, Option, none, some, List, [], ◌∷◌, ◌++◌, has_value,
  if◌then◌else◌, Result, ok, err, ◌>>=◌, Eq,
}
use fronius_bridge.Doubles.{Doubles}
use fronius_bridge.Devices.{MeterValues, MeterDevice}
use fronius_bridge.ChangeGate.{changed}
use fronius_bridge.Modbus.{Errors, eintr, ModbusSeverity, fatal, transient, cancelled, unnamed}
use fronius_bridge.Readers.Json.{Document}
use fronius_bridge.Readers.Meter.{MeterReads, MeterDeviceReads, read_meter}
use fronius_bridge.Readers.Meter.Phases.{meter_document, read_meter_device, meter_device_document}

pub record FroniusMeter (F : Type 0) : Type 0 where
  pub is_connected : Bool
  pub device_gate : Option MeterDevice
  pub device : Option (Document F × MeterDevice)
  pub values : Option (Document F × MeterValues F)

-- One iteration: the running flag at each of its tests, and what the getters return.
pub record MeterPoll (E F : Type 0) : Type 0 where
  pub is_running : Bool
  pub runs_device : Bool
  pub publishes_device : Bool
  pub runs_values : Bool
  pub publishes_values : Bool
  pub device_reads : MeterDeviceReads E
  pub value_reads : MeterReads E F

pub data MeterStep (E F : Type 0) : Type 0 where
  meter_ready meter_unavailable : MeterStep E F
  meter_failed : E → MeterStep E F
  meter_poll : MeterPoll E F → MeterStep E F

-- What leaves the reader.
pub data FromMeter (F : Type 0) : Type 0 where
  meter_availability : String → FromMeter F
  from_device : Document F → MeterDevice → FromMeter F
  from_values : Document F → MeterValues F → FromMeter F
  meter_shutdown : String → FromMeter F
  meter_retry : FromMeter F

module _ {E F : Type 0} (errors : Errors E) (dbl : Doubles F) (version commit name : String)
    (has_device_callback has_value_callback has_availability_callback : Bool)
    ⦃eq : Eq MeterDevice⦄ where
  -- A known device is not read again.
  unfoldable pub update_meter_device :
      (runs : Bool) → MeterDeviceReads E → FroniusMeter F → Result E (Bool × FroniusMeter F)
  unfolding read_meter_device meter_device_document changed
  update_meter_device false r m = err (errors.custom eintr)
  update_meter_device true r m =
      if has_value m.device_gate
      then ok (false, m)
      else (read_meter_device version commit r >>= λ dev. ok (
        true,
        record m {
          device_gate = (changed m.device_gate dev).0;
          device = some (meter_device_document dev, dev);
        },
      ))

  unfoldable pub update_meter_values :
      (runs : Bool) → MeterReads E F → FroniusMeter F → Result E (FroniusMeter F)
  unfolding read_meter meter_document
  update_meter_values false r m = err (errors.custom eintr)
  update_meter_values true r m =
      read_meter dbl r >>= λ v. ok (record m { values = some (meter_document dbl r.phases v, v) })

  abbrev pub send_device : Bool → Option (Document F × MeterDevice) → List (FromMeter F)
  send_device true (some (doc, dev)) = from_device doc dev ∷ []
  send_device true none = []
  send_device false _ = []

  abbrev pub send_values : Bool → Option (Document F × MeterValues F) → List (FromMeter F)
  send_values true (some (doc, v)) = from_values doc v ∷ []
  send_values true none = []
  send_values false _ = []

  abbrev pub after_meter_device :
      MeterPoll E F
      → FroniusMeter F
      → Result E (Bool × FroniusMeter F)
      → FroniusMeter F × List (FromMeter F)
  after_meter_device p m (err x) = (record m { is_connected = false }, [])
  after_meter_device p m (ok (is_new, m')) =
      (m', send_device (is_new && has_device_callback && p.publishes_device) m'.device)

  abbrev pub after_meter_values :
      MeterPoll E F
      → FroniusMeter F
      → Result E (FroniusMeter F)
      → FroniusMeter F × List (FromMeter F)
  after_meter_values p m (err x) = (record m { is_connected = false }, [])
  after_meter_values p m (ok m') =
      (m', send_values (has_value_callback && p.publishes_values) m'.values)

  unfoldable pub read_both : MeterPoll E F → FroniusMeter F → FroniusMeter F × List (FromMeter F)
  unfolding update_meter_device update_meter_values
  read_both p m =
      let (m1, ds) = after_meter_device p m (update_meter_device p.runs_device p.device_reads m) in
      let (m2, vs) = after_meter_values p m1 (update_meter_values p.runs_values p.value_reads m1) in
      (m2, ds ++ vs)

  -- Every report is sent on, also one that repeats the last.
  abbrev pub report_availability : String → List (FromMeter F)
  report_availability state =
      if has_availability_callback then meter_availability state ∷ [] else []

  abbrev pub on_meter_error : ModbusSeverity → FroniusMeter F → FroniusMeter F × List (FromMeter F)
  on_meter_error fatal m =
      (m, meter_shutdown (append "meter '" (append name "' Modbus error")) ∷ [])
  on_meter_error transient m = (record m { is_connected = false }, meter_retry ∷ [])
  on_meter_error cancelled m = (record m { is_connected = false }, [])
  on_meter_error unnamed m = (m, [])

  unfoldable pub step_meter : MeterStep E F → FroniusMeter F → FroniusMeter F × List (FromMeter F)
  unfolding read_both
  step_meter meter_ready m = (record m { is_connected = true }, report_availability "connected")
  step_meter meter_unavailable m =
      (record m { is_connected = false }, report_availability "disconnected")
  step_meter (meter_failed x) m = on_meter_error (errors.severity x) m
  step_meter (meter_poll p) m = if p.is_running && m.is_connected then read_both p m else (m, [])

  unfoldable pub run_meter :
      List (MeterStep E F) → FroniusMeter F → FroniusMeter F × List (FromMeter F)
  unfolding step_meter
  run_meter [] m = (m, [])
  run_meter (s ∷ ss) m =
      let (m1, before) = step_meter s m in
      let (m2, after) = run_meter ss m1 in (m2, before ++ after)
