-- ===== src/Examples/Readers.antt =====
-- Readings of an inverter and of meters.
use fronius_bridge.Prelude.{
  ◌≡◌, ◌≤◌, ◌↔◌, refl, ◌+◌, ℕ, pos, int_eq, int_beq, int_beq_iff, nat_eq, nat_beq, nat_beq_iff,
  text_eq, Eq, ◌==◌, Bool, true, false, ◌&&◌, none, String, List, [], ◌∷◌, ok, arith,
}
use fronius_bridge.Devices.{InverterDevice, InverterValues}
use fronius_bridge.ChangeGate.{forward, NoRepeat}
use fronius_bridge.Modbus.{Errors, transient}
use fronius_bridge.Readers.Inverter.Documents.{input_object, input_objects}
use fronius_bridge.Readers.Inverter.{InverterEvents, InverterReads, DeviceReads, EventReads}
use fronius_bridge.Readers.Inverter.Poll.{
  Callbacks, InverterMaster, InverterPoll, InverterStep, ready, unavailable, poll, run_inverter,
}
use fronius_bridge.Readers.Inverter.Poll.Calm.{states, devices_in}
use fronius_bridge.Readers.Inverter.Poll.Quiet.{run_inverter-quiet}
use fronius_bridge.Prelude.{◌<ℤ◌, if◌then◌else◌}
use fronius_bridge.Doubles.{Doubles}
use fronius_bridge.Config.Types.{GridConfig}
use fronius_bridge.Config.Document.{document}
use fronius_bridge.Config.Sections.{parse_grid}
use fronius_bridge.Readers.Rounding.{round_input}
use fronius_bridge.Readers.Inverter.{read_ac, read_inverter, no_input}
use fronius_bridge.Readers.Inverter.Inputs.{second_input_blank}
use fronius_bridge.Shutdown.{fresh_handler}
use fronius_bridge.Pg.Queue.{enqueue_all}
use fronius_bridge.Readers.Inverter.Poll.{Message, availability, values_message}
use fronius_bridge.Main.{Settings, Consumers, deliver_all}
use fronius_bridge.Main.Delivered.{events_of, deliver_all-queue}
use fronius_bridge.Examples.Database.{values, floats}

abbrev list_beq : List String → List String → Bool
list_beq [] [] = true
list_beq (x ∷ xs) (y ∷ ys) = x == y && list_beq xs ys
list_beq [] (y ∷ ys) = false
list_beq (x ∷ xs) [] = false

list_beq_iff : (xs ys : List String) → (list_beq xs ys ≡ true) ↔ (xs ≡ ys)
list_beq_iff [] [] = ground arith
list_beq_iff (x ∷ xs) (y ∷ ys) = ground (arith, text_eq.beq_iff x y, list_beq_iff xs ys)
list_beq_iff [] (y ∷ ys) = ground arith
list_beq_iff (x ∷ xs) [] = ground arith

abbrev events_beq : InverterEvents → InverterEvents → Bool
events_beq x y =
    int_beq x.active_code y.active_code && x.state == y.state && list_beq x.events y.events

events_beq_iff : (x y : InverterEvents) → (events_beq x y ≡ true) ↔ (x ≡ y)
events_beq_iff x y = ground (
  arith,
  int_beq_iff x.active_code y.active_code,
  text_eq.beq_iff x.state y.state,
  list_beq_iff x.events y.events,
)

abbrev flag_beq : Bool → Bool → Bool
flag_beq true b = b
flag_beq false true = false
flag_beq false false = true

flag_beq_iff : (x y : Bool) → (flag_beq x y ≡ true) ↔ (x ≡ y)
flag_beq_iff x y = ground arith

abbrev names_beq : InverterDevice ℕ → InverterDevice ℕ → Bool
names_beq x y =
    x.manufacturer == y.manufacturer
    && x.model == y.model
    && x.serial_number == y.serial_number
    && x.fw_version == y.fw_version
    && x.data_manager_version == y.data_manager_version
    && x.register_model == y.register_model

abbrev numbers_beq : InverterDevice ℕ → InverterDevice ℕ → Bool
numbers_beq x y =
    int_beq x.id y.id
    && flag_beq x.is_hybrid y.is_hybrid
    && int_beq x.phases y.phases
    && int_beq x.inputs y.inputs
    && int_beq x.slave_id y.slave_id
    && nat_beq x.ac_power_apparent y.ac_power_apparent

device_beq_iff : (x y : InverterDevice ℕ) → (names_beq x y && numbers_beq x y ≡ true) ↔ (x ≡ y)
device_beq_iff x y = ground (
  arith,
  text_eq.beq_iff x.manufacturer y.manufacturer,
  text_eq.beq_iff x.model y.model,
  text_eq.beq_iff x.serial_number y.serial_number,
  text_eq.beq_iff x.fw_version y.fw_version,
  text_eq.beq_iff x.data_manager_version y.data_manager_version,
  text_eq.beq_iff x.register_model y.register_model,
  int_beq_iff x.id y.id,
  flag_beq_iff x.is_hybrid y.is_hybrid,
  int_beq_iff x.phases y.phases,
  int_beq_iff x.inputs y.inputs,
  int_beq_iff x.slave_id y.slave_id,
  nat_beq_iff x.ac_power_apparent y.ac_power_apparent,
)

instance abbrev events_eq : Eq InverterEvents
events_eq = record { beq = events_beq; beq_iff = events_beq_iff }

instance abbrev device_eq : Eq (InverterDevice ℕ)
device_eq = record { beq = λ x y. names_beq x y && numbers_beq x y; beq_iff = device_beq_iff }

abbrev errors : Errors String
errors = record { severity = λ e. transient; custom = λ e. "custom"; from_errno = λ e. "errno" }

abbrev callbacks : Callbacks
callbacks = record {
  has_value_callback = true;
  has_event_callback = true;
  has_device_callback = true;
  has_availability_callback = true;
}

-- An inverter with three inputs.
abbrev value_reads : InverterReads String ℕ
value_reads = record {
  fetched = ok tt;
  now = 1000;
  ac_energy = ok 5000;
  ac_power = λ o. ok 400;
  ac_voltage = λ p. ok 230;
  ac_current = λ p. ok 2;
  ac_frequency = ok 50;
  dc_power = λ i. ok 410;
  dc_voltage = λ i. ok 500;
  dc_current = λ i. ok 1;
  dc_energy = λ i. ok 6000;
  phases = pos 3;
  inputs = pos 3;
  is_hybrid = false;
}

abbrev device_reads : DeviceReads String ℕ
device_reads = record {
  manufacturer = ok "Fronius";
  model = ok "Tauro";
  serial_number = ok "1";
  fw_version = ok "1.0";
  options = ok "3";
  use_float_registers = true;
  modbus_device_address = ok (pos 1);
  ac_power_rating = ok 50000;
  id = pos 1;
  is_hybrid = false;
  inputs = pos 3;
  phases = pos 3;
}

abbrev event_reads : EventReads String
event_reads = record { active_code = pos 0; state = ok "running"; events = ok [] }

abbrev one_poll : InverterPoll String ℕ
one_poll = record {
  is_running = true;
  runs_device = true;
  publishes_device = true;
  runs_values = true;
  publishes_values = true;
  runs_events = true;
  publishes_events = true;
  device_reads = device_reads;
  value_reads = value_reads;
  event_reads = event_reads;
}

abbrev idle_master : InverterMaster ℕ
idle_master = record {
  is_connected = false;
  availability_gate = none;
  device_gate = none;
  events_gate = none;
  values = none;
  events = none;
  device = none;
}

abbrev day : List (InverterStep String ℕ)
day = ready ∷ poll one_poll ∷ poll one_poll ∷ unavailable ∷ unavailable ∷ ready ∷ []

run_inverter-quiet_example :
    let ms = (run_inverter errors floats "roof" callbacks day idle_master).1 in
    (states ms ≡ forward none ("connected" ∷ "disconnected" ∷ "disconnected" ∷ "connected" ∷ []))
    × NoRepeat none (states ms)
    × (devices_in ms + 0 ≤ 1)
run_inverter-quiet_example = run_inverter-quiet errors floats "roof" callbacks day idle_master refl

reads_ok : (v : InverterValues ℕ) × (read_inverter floats value_reads ≡ ok v)
unfolding read_inverter read_ac
reads_ok = (_, refl)

second_input_blank_example :
    input_objects floats false (pos 3) reads_ok.0
    ≡ input_object floats false (pos 1) reads_ok.0.input1
      ∷ input_object floats false (pos 2) (round_input floats (no_input floats))
      ∷ []
second_input_blank_example = second_input_blank floats value_reads reads_ok.0 three reads_ok.1
  where
    three : pos 2 <ℤ pos 3
    three = omega arith

-- Doubles whose default power factor is 1.
abbrev ordered : Doubles ℕ
ordered = record floats { literal = λ s. if s == "0.0" then 0 else 1 }

abbrev default_factor : GridConfig ℕ
default_factor = record { power_factor = 1; frequency = 1; is_leading = false }

parsed_grid : parse_grid (document {F = ℕ}) ordered none ≡ ok default_factor
unfolding parse_grid
parsed_grid = refl

abbrev settings : Settings
settings = record {
  topic = "fronius-bridge";
  hash = λ s. 0;
  mqtt_queue_size = 100;
  has_postgres = true;
  threshold = 100;
  pg_queue_size = 2;
}

abbrev consumers : Consumers ℕ
consumers = record {
  topics = [];
  queue = record { queue = []; dropped_since_last_log = 0; reported = 0 };
  handler = fresh_handler;
}

abbrev told : List (Message ℕ)
told = availability "connected" ∷ values_message [] values ∷ values_message [] values ∷ []

deliver_all-queue_example :
    (deliver_all settings (λ d. "{}") "roof" told consumers).queue
    ≡ enqueue_all 100 2 (events_of "roof" told) consumers.queue
deliver_all-queue_example = deliver_all-queue settings (λ d. "{}") "roof" told consumers
