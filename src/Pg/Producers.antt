-- ===== src/Pg/Producers.antt =====
-- The callbacks of `PostgresClient` that the readers call.
use fronius_bridge.Prelude.{ℕ, String}
use fronius_bridge.Devices.{InverterDevice, InverterValues, MeterDevice, MeterValues}
use fronius_bridge.Pg.Queue.{EventQueue, enqueue}
use fronius_bridge.Pg.Client.{
  Event, Payload, inverter_device, meter_device, inverter_values, meter_values,
}

module _ {F : Type 0} (threshold queue_size : ℕ) (device_name : String) where
  abbrev pub enqueue_payload : Payload F → EventQueue (Event F) → EventQueue (Event F)
  enqueue_payload payload =
      enqueue threshold queue_size (record { device_name = device_name; payload = payload })

  abbrev pub on_inverter_device : InverterDevice F → EventQueue (Event F) → EventQueue (Event F)
  on_inverter_device dev = enqueue_payload (inverter_device dev)

  abbrev pub on_meter_device : MeterDevice → EventQueue (Event F) → EventQueue (Event F)
  on_meter_device dev = enqueue_payload (meter_device dev)

  abbrev pub on_inverter : InverterValues F → EventQueue (Event F) → EventQueue (Event F)
  on_inverter values = enqueue_payload (inverter_values values)

  abbrev pub on_meter : MeterValues F → EventQueue (Event F) → EventQueue (Event F)
  on_meter values = enqueue_payload (meter_values values)
