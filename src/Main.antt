-- ===== src/Main.antt =====
-- src/main.cpp: here the callbacks that it wires between the readers and the consumers. `dump` prints a
-- document.
pub mod Delivered
pub mod Start
use fronius_bridge.Prelude.{
  ℕ, ℤ, String, append, Bool, true, false, Option, none, some, List, [], ◌∷◌, if◌then◌else◌,
}
use fronius_bridge.Devices.{InverterValues, InverterDevice, MeterValues, MeterDevice}
use fronius_bridge.Shutdown.{SignalHandler, shutdown}
use fronius_bridge.Mqtt.{Topics, publish}
use fronius_bridge.Pg.Queue.{EventQueue}
use fronius_bridge.Pg.Producers.{
  on_inverter_device, on_meter_device as pg_meter_device, on_inverter, on_meter,
}
use fronius_bridge.Pg.Client.{Event}
use fronius_bridge.Slave.Update.{Packing, MeterSlave, update_values, update_device}
use fronius_bridge.Readers.Json.{Document}
use fronius_bridge.Readers.Inverter.Poll.{
  Message, availability, device_message, values_message, events_message, shutdown_request,
  device_retry,
}

-- The parameters of the consumers: the hash and the queue's size of the broker's client, the size and the
-- threshold of the database's, and whether there is a database.
pub record Settings : Type 0 where
  pub topic : String
  pub hash : String → ℕ
  pub mqtt_queue_size : ℕ
  pub has_postgres : Bool
  pub threshold : ℕ
  pub pg_queue_size : ℕ

-- What the consumers hold, with the program's flags.
pub record Consumers (F : Type 0) : Type 0 where
  pub topics : Topics
  pub queue : EventQueue (Event F)
  pub handler : SignalHandler

module _ {F : Type 0} (settings : Settings) (dump : Document F → String) where
  abbrev pub publish_at : (payload topic : String) → Consumers F → Consumers F
  publish_at payload topic s = record s {
    topics = publish settings.hash settings.mqtt_queue_size payload topic s.topics;
  }

  -- `onInverter`, `onInverterDevice`, `onMeter` and `onMeterDevice`, if there is a database.
  abbrev pub enqueue_if :
      (ℕ → ℕ → EventQueue (Event F) → EventQueue (Event F)) → Consumers F → Consumers F
  enqueue_if callback s =
      let queue = callback settings.threshold settings.pg_queue_size s.queue in
      if settings.has_postgres then record s { queue = queue } else s

  abbrev pub topic_base : (kind name : String) → String
  topic_base kind name = append settings.topic (append kind name)

  -- The callbacks of an inverter, and the requests of its reader.
  unfoldable pub deliver : (name : String) → Message F → Consumers F → Consumers F
  unfolding shutdown
  deliver name (availability state) s =
      publish_at state (append (topic_base "/inverter/" name) "/availability") s
  deliver name (device_message doc dev) s =
      enqueue_if (λ t q. on_inverter_device t q name dev)
        (publish_at (dump doc) (append (topic_base "/inverter/" name) "/device") s)
  deliver name (values_message doc v) s =
      enqueue_if (λ t q. on_inverter t q name v)
        (publish_at (dump doc) (append (topic_base "/inverter/" name) "/values") s)
  deliver name (events_message doc events) s =
      publish_at (dump doc) (append (topic_base "/inverter/" name) "/events") s
  deliver name (shutdown_request reason) s = record s { handler = shutdown true reason s.handler }
  deliver name device_retry s = s

  unfoldable pub deliver_all : (name : String) → List (Message F) → Consumers F → Consumers F
  unfolding deliver
  deliver_all name [] s = s
  deliver_all name (m ∷ ms) s = deliver_all name ms (deliver name m s)

  -- The callbacks of a meter, with the slave that serves it, if it has one.
  module _ {E R : Type 0} (packing : Packing E R F) (use_float_model : Bool) where
    abbrev pub serve_values :
        (allocated : Bool)
        → (name : String) → MeterValues F
        → Option (MeterSlave R)
        → Consumers F
        → Option (MeterSlave R) × Consumers F
    serve_values allocated name v none s = (none, s)
    serve_values allocated name v (some slave) s =
        let (slave', handler) =
          update_values packing name use_float_model allocated v slave s.handler in
        (some slave', record s { handler = handler })

    abbrev pub serve_device :
        (allocated : Bool)
        → (name : String) → MeterDevice
        → Option (MeterSlave R)
        → Consumers F
        → Option (MeterSlave R) × Consumers F
    serve_device allocated name d none s = (none, s)
    serve_device allocated name d (some slave) s =
        let (slave', handler) = update_device packing name allocated d slave s.handler in
        (some slave', record s { handler = handler })

    unfoldable pub on_meter_values :
        (allocated : Bool)
        → (name : String) → Document F
        → MeterValues F
        → Option (MeterSlave R)
        → Consumers F
        → Option (MeterSlave R) × Consumers F
    on_meter_values allocated name doc v slave s = serve_values allocated name v slave (
        enqueue_if (λ t q. on_meter t q name v)
          (publish_at (dump doc) (append (topic_base "/meter/" name) "/values") s))

    unfoldable pub on_meter_device :
        (allocated : Bool)
        → (name : String) → Document F
        → MeterDevice
        → Option (MeterSlave R)
        → Consumers F
        → Option (MeterSlave R) × Consumers F
    on_meter_device allocated name doc d slave s = serve_device allocated name d slave (
        enqueue_if (λ t q. pg_meter_device t q name d)
          (publish_at (dump doc) (append (topic_base "/meter/" name) "/device") s))

    unfoldable pub on_meter_availability : (name state : String) → Consumers F → Consumers F
    on_meter_availability name state s =
        publish_at state (append (topic_base "/meter/" name) "/availability") s
