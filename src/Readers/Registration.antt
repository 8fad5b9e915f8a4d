-- ===== src/Readers/Registration.antt =====
-- The constructors and destructors of src/inverter_master.cpp and src/fronius_meter.cpp: how a reader joins and
-- leaves the bus that it may share with others. A device is the number of its object, and the ids of the
-- callbacks are those that the bus gives.
pub mod Detached
use fronius_bridge.Prelude.{
  ℕ, ℤ, String, append, Bool, true, false, Option, none, some, List, [], ◌∷◌, ◌++◌, map,
}
use fronius_bridge.Config.Types.{ModbusMaster}
use fronius_bridge.Modbus.{ModbusSeverity, fatal, transient, cancelled, unnamed}
use fronius_bridge.Shutdown.{SignalHandler, shutdown}

-- `ModbusDeviceConfig` of libfronius, as far as the program fills it.
pub record ModbusDeviceConfig : Type 0 where
  pub slave_id : ℤ
  pub sec_timeout : ℤ
  pub usec_timeout : ℤ
  pub reconnect_delay : ℤ
  pub reconnect_delay_max : ℤ
  pub exponential : Bool

-- `makeDeviceConfig` of both readers
unfoldable pub make_device_config : ModbusMaster → ModbusDeviceConfig
make_device_config cfg = record {
  slave_id = cfg.slave_id;
  sec_timeout = cfg.response_timeout.sec;
  usec_timeout = cfg.response_timeout.usec;
  reconnect_delay = cfg.reconnect_delay.min;
  reconnect_delay_max = cfg.reconnect_delay.max;
  exponential = cfg.reconnect_delay.exponential;
}

pub data BusCall : Type 0 where
  register_device unregister_device : (device : ℕ) → BusCall
  add_connect_callback add_disconnect_callback add_error_callback : (id : ℕ) → BusCall
  remove_callback : (id : ℕ) → BusCall
  start_worker join_worker : BusCall
  publish_disconnected : BusCall

-- A reader: its device, and `busCallbackIds_`.
pub record Reader : Type 0 where
  pub device : ℕ
  pub on_connect : ℕ
  pub on_disconnect : ℕ
  pub on_error : ℕ

abbrev pub bus_callback_ids : Reader → List ℕ
bus_callback_ids r = r.on_connect ∷ r.on_disconnect ∷ r.on_error ∷ []

-- `InverterMaster::InverterMaster` and `FroniusMeter::FroniusMeter`
unfoldable pub attach : Reader → List BusCall
attach r =
    register_device r.device
    ∷ add_connect_callback r.on_connect
    ∷ add_disconnect_callback r.on_disconnect
    ∷ add_error_callback r.on_error
    ∷ start_worker
    ∷ []

-- The destructors. Whether an inverter publishes its end is for its gate to say.
unfoldable pub detach : Reader → (publishes : Bool) → List BusCall
detach r publishes =
    unregister_device r.device
    ∷ (map remove_callback (bus_callback_ids r) ++ (join_worker ∷ if_published publishes))
  where
    if_published : Bool → List BusCall
    if_published true = publish_disconnected ∷ []
    if_published false = []

-- The callback for an error of the bus. `kind` is "inverter" or "meter".
unfoldable pub on_bus_error : (kind name : String) → ModbusSeverity → SignalHandler → SignalHandler
unfolding shutdown
on_bus_error kind name fatal h =
    shutdown true (append kind (append " '" (append name "' Modbus bus error"))) h
on_bus_error kind name transient h = h
on_bus_error kind name cancelled h = h
on_bus_error kind name unnamed h = h
