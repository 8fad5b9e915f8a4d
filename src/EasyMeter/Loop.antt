-- ===== src/EasyMeter/Loop.antt =====
-- EasyMeter::runLoop, one iteration at a time, with `handleResult` and the two updates. What `tryConnect` and
-- `readTelegram` return is an input; `text` makes a string of bytes.
use fronius_bridge.Prelude.{
  ℕ, pos, String, append, Bool, true, false, ◌&&◌, Option, some, List, [], ◌∷◌, ◌++◌, if◌then◌else◌,
  Result, ok, err, ◌>>=◌, Eq,
}
use fronius_bridge.Doubles.{Doubles}
use fronius_bridge.Devices.{MeterValues, MeterDevice}
use fronius_bridge.ChangeGate.{changed}
use fronius_bridge.Shutdown.{SignalHandler, shutdown}
use fronius_bridge.Modbus.{
  Errors, eintr, ErrorAction, no_action, reconnect, end_of_run, ModbusSeverity, fatal, transient,
  cancelled, unnamed,
}
use fronius_bridge.Config.Types.{GridConfig}
use fronius_bridge.Readers.Json.{Document, words, whole, leaf}
use fronius_bridge.EasyMeter.Obis.{
  Patterns, LineError, lines_of, no_reading, read_values, Identity, read_identity,
}
use fronius_bridge.EasyMeter.Values.{derive_values, easy_meter_document}

pub record EasyMeter (F : Type 0) : Type 0 where
  pub is_open : Bool
  pub telegram : List ℕ
  pub device_gate : Option MeterDevice
  -- no document is the null that a JSON value starts as
  pub json_device : Option (Document F)
  pub device : MeterDevice
  pub json_values : Option (Document F)
  pub values : MeterValues F
  pub handler : SignalHandler

-- One iteration: what the serial port gives, the time, and the running flag where it is tested.
pub record Iteration (E : Type 0) : Type 0 where
  pub connected : Result E (Unit {0})
  pub read : Result E (List ℕ)
  pub now : ℕ
  pub runs_device : Bool
  pub publishes_device : Bool
  pub runs_values : Bool
  pub publishes_values : Bool

pub data MeterMessage (F : Type 0) : Type 0 where
  meter_device_message : Option (Document F) → MeterDevice → MeterMessage F
  meter_values_message : Option (Document F) → MeterValues F → MeterMessage F

-- The meter after an iteration, what it has published, and whether the loop goes on.
pub record Iterated (F : Type 0) : Type 0 where
  pub meter : EasyMeter F
  pub messages : List (MeterMessage F)
  pub goes_on : Bool

abbrev pub easy_device_document : {F : Type 0} → MeterDevice → Document F
easy_device_document d =
    ("manufacturer", leaf (words d.manufacturer))
    ∷ ("model", leaf (words d.model))
    ∷ ("serial_number", leaf (words d.serial_number))
    ∷ ("firmware_version", leaf (words d.fw_version))
    ∷ ("options", leaf (words d.options))
    ∷ ("phases", leaf (whole d.phases))
    ∷ []

module _ {E F : Type 0} (errors : Errors E) (protocol : LineError → E) (dbl : Doubles F)
    (patterns : Patterns F) (text : List ℕ → String) (version commit name : String)
    (grid : GridConfig F) (has_device_callback has_value_callback : Bool)
    ⦃eq : Eq MeterDevice⦄ where
  abbrev pub easy_severity : ModbusSeverity → EasyMeter F → EasyMeter F × ErrorAction
  easy_severity fatal m = (
    record m { handler = shutdown true (append "meter '" (append name "' error")) m.handler },
    end_of_run,
  )
  easy_severity transient m = (record m { is_open = false }, reconnect)
  easy_severity cancelled m = (m, end_of_run)
  easy_severity unnamed m = (m, no_action)

  -- `handleResult`: a transient error closes the port.
  abbrev pub handle_easy : Result E (EasyMeter F) → EasyMeter F → EasyMeter F × ErrorAction
  handle_easy (ok m') m = (m', no_action)
  handle_easy (err e) m = easy_severity (errors.severity e) m

  abbrev pub as_protocol : {A : Type 0} → Result LineError A → Result E A
  as_protocol (ok x) = ok x
  as_protocol (err e) = err (protocol e)

  abbrev pub device_of : Identity dbl patterns → MeterDevice
  device_of i = record {
    id = pos 0;
    manufacturer = "EasyMeter";
    model = "DD3-BZ06-ETA-ODZ1";
    serial_number = text i.serial_number;
    fw_version = text i.fw_version;
    options = append version (append "-" commit);
    data_manager_version = "";
    register_model = "";
    phases = pos 3;
    inputs = pos 0;
    slave_id = pos 0;
  }

  abbrev pub parse_device : EasyMeter F → Result E (EasyMeter F)
  parse_device m =
      as_protocol (
        read_identity dbl patterns (lines_of m.telegram)
          (record { fw_version = []; serial_number = [] }))
      >>= λ i. ok (record m {
        json_device = some (easy_device_document (device_of i));
        device = device_of i;
      })

  abbrev pub parse_values : (now : ℕ) → EasyMeter F → Result E (EasyMeter F)
  parse_values now m =
      as_protocol (read_values dbl patterns (lines_of m.telegram) (no_reading dbl patterns))
      >>= λ r. ok (record m {
        json_values = some (easy_meter_document dbl grid (derive_values dbl grid now r));
        values = derive_values dbl grid now r;
      })

  -- An update without a telegram changes nothing.
  abbrev pub if_telegram :
      List ℕ → (EasyMeter F → Result E (EasyMeter F)) → EasyMeter F → Result E (EasyMeter F)
  if_telegram [] update m = ok m
  if_telegram (b ∷ bs) update m = update m

  unfoldable pub update_easy_device : (runs : Bool) → EasyMeter F → Result E (EasyMeter F)
  update_easy_device runs m =
      if runs then if_telegram m.telegram parse_device m else err (errors.custom eintr)

  unfoldable pub update_easy_values :
      (runs : Bool) → (now : ℕ) → EasyMeter F → Result E (EasyMeter F)
  update_easy_values runs now m =
      if runs then if_telegram m.telegram (parse_values now) m else err (errors.custom eintr)

  -- `deviceGate_.changed(device_)`, and the callback if there is one.
  abbrev pub gate_device : EasyMeter F → EasyMeter F × List (MeterMessage F)
  gate_device m =
      let (gate, is_changed) = changed m.device_gate m.device in
      (
        record m { device_gate = gate },
        if is_changed && has_device_callback
            then meter_device_message m.json_device m.device ∷ []
            else [],
      )

  abbrev pub publish_easy_values : EasyMeter F → List (MeterMessage F)
  publish_easy_values m =
      if has_value_callback then meter_values_message m.json_values m.values ∷ [] else []

  abbrev pub unless_error :
      ErrorAction → EasyMeter F → List (MeterMessage F) → (rest : Iterated F) → Iterated F
  unless_error end_of_run m ms rest = record { meter = m; messages = ms; goes_on = false }
  unless_error reconnect m ms rest = record { meter = m; messages = ms; goes_on = true }
  unless_error no_action m ms rest = record rest { messages = ms ++ rest.messages }

  abbrev pub finish_values : Iteration E → EasyMeter F → Iterated F
  finish_values t m =
      let (m', action) = handle_easy (update_easy_values t.runs_values t.now m) m in
      unless_error action m' [] (record {
        meter = m';
        messages = if t.publishes_values then publish_easy_values m' else [];
        goes_on = true;
      })

  abbrev pub finish_device : Iteration E → EasyMeter F → Iterated F
  finish_device t m =
      let (m', action) = handle_easy (update_easy_device t.runs_device m) m in
      let (m2, ms) = if t.publishes_device then gate_device m' else (m', []) in
      let rest = finish_values t m2 in
      unless_error action m' [] (record rest { messages = ms ++ rest.messages })

  abbrev pub finish_telegram : Iteration E → EasyMeter F → Iterated F
  finish_telegram t m =
      let (m', action) = handle_easy (t.read >>= λ bytes. ok (record m { telegram = bytes })) m in
      unless_error action m' [] (finish_device t m')

  unfoldable pub iterate : Iteration E → EasyMeter F → Iterated F
  unfolding update_easy_device update_easy_values shutdown changed
  iterate t m =
      let (m', action) = handle_easy (t.connected >>= λ _. ok (record m { is_open = true })) m in
      unless_error action m' [] (finish_telegram t m')

  -- The loop, as far as the iterations go; the first without the running flag ends it.
  unfoldable pub run_easy_meter : List (Bool × Iteration E) → EasyMeter F → Iterated F
  unfolding iterate
  run_easy_meter [] m = record { meter = m; messages = []; goes_on = true }
  run_easy_meter ((running, t) ∷ ts) m =
      let one = iterate t m in
      let rest = run_easy_meter ts one.meter in
      if running
      then (if one.goes_on then record rest { messages = one.messages ++ rest.messages } else one)
      else record { meter = m; messages = []; goes_on = false }
