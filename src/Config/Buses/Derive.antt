-- ===== src/Config/Buses/Derive.antt =====
-- The bus registry and the device roster.
use mathlib.Core.Option
use fronius_bridge.Prelude.{
  ℕ, String, Bool, false, ◌||◌, Option, none, some, List, [], ◌∷◌, ◌++◌, ◌==◌, text_eq, ℤ, min_ℤ,
  if◌then◌else◌, Result, ok, err, ◌>>=◌, map,
}
use fronius_bridge.Config.Types.{
  Parity, no_parity, even, odd, ModbusTcpClientConfig, ModbusRtuConfig, ModbusMaster,
  InverterConfig, MeterBody, fronius, ebz, MeterConfig, MeterLocation, feed_in, consumption,
  Devices, ConfigError, null_transport, no_transport,
}
use fronius_bridge.Config.Validate.Refs.{key_of}

-- The character that libmodbus takes for a parity.
unfoldable pub parity_to_char : Parity → ℕ
parity_to_char even = b'E'
parity_to_char odd = b'O'
parity_to_char no_parity = b'N'

-- The transport and the reconnect schedule of libfronius' `ModbusBusConfig`, which the program fills.
pub data Transport : Type 0 where
  tcp_transport : (host : String) (port : ℤ) → Transport
  rtu_transport : (device : String) (baud data_bits stop_bits : ℤ) (parity : ℕ) → Transport

pub record ModbusBusConfig : Type 0 where
  pub transport : Transport
  pub reconnect_delay : ℤ
  pub reconnect_delay_max : ℤ
  pub exponential : Bool

unfoldable pub transport_of :
    Option ModbusTcpClientConfig → Option ModbusRtuConfig → Result ConfigError Transport
unfolding parity_to_char
transport_of (some t) _ = ok (tcp_transport t.host t.port)
transport_of none (some r) =
    ok (rtu_transport r.device r.baud r.data_bits r.stop_bits (parity_to_char r.parity))
transport_of none none = err no_transport

unfoldable pub make_bus_config : ModbusMaster → Result ConfigError ModbusBusConfig
unfolding transport_of
make_bus_config m = do
  t ← transport_of m.tcp m.rtu
  ok (record {
    transport = t;
    reconnect_delay = m.reconnect_delay.min;
    reconnect_delay_max = m.reconnect_delay.max;
    exponential = m.reconnect_delay.exponential;
  })

unfoldable pub merge_reconnect_delay : ModbusBusConfig → ModbusBusConfig → ModbusBusConfig
merge_reconnect_delay dst src = record dst {
  reconnect_delay = min_ℤ dst.reconnect_delay src.reconnect_delay;
  reconnect_delay_max = min_ℤ dst.reconnect_delay_max src.reconnect_delay_max;
  exponential = dst.exponential || src.exponential;
}

pub record BusMember : Type 0 where
  pub name : String
  pub slave_id : ℤ

pub record BusInfo : Type 0 where
  pub config : ModbusBusConfig
  pub members : List BusMember

-- What a device contributes to the registry.
pub record BusEntry : Type 0 where
  pub key : String
  pub config : ModbusBusConfig
  pub member : BusMember

abbrev pub key_or_null : Option String → Result ConfigError String
key_or_null none = err null_transport
key_or_null (some k) = ok k

unfoldable pub master_bus_entry : String → ModbusMaster → Result ConfigError BusEntry
unfolding make_bus_config
master_bus_entry name m = do
  k ← key_or_null (key_of m.rtu m.tcp)
  c ← make_bus_config m
  ok (record { key = k; config = c; member = record { name = name; slave_id = m.slave_id } })

-- A meter joins a bus if it is a Modbus meter.
unfoldable pub meter_bus_entry :
    {F : Type 0} → String → MeterBody F → Result ConfigError (Option BusEntry)
meter_bus_entry name (fronius m) = do e ← master_bus_entry name m; ok (some e)
meter_bus_entry name (ebz e) = ok none

-- The `fold` of `deriveBuses`: a new key makes a bus, a known one merges the policy.
unfoldable pub fold_bus : List (String × BusInfo) → BusEntry → List (String × BusInfo)
fold_bus [] e = (e.key, record { config = e.config; members = e.member ∷ [] }) ∷ []
fold_bus ((j, b) ∷ bs) e =
    let rest = fold_bus bs e in
    if e.key == j
    then (
      j,
      record {
        config = merge_reconnect_delay b.config e.config;
        members = b.members ++ (e.member ∷ []);
      },
    )
      ∷ bs
    else (j, b) ∷ rest

abbrev pub fold_entry : List (String × BusInfo) → Option BusEntry → List (String × BusInfo)
fold_entry buses none = buses
fold_entry buses (some e) = fold_bus buses e

unfoldable pub fold_meters :
    {F : Type 0}
    → List (String × BusInfo)
    → List (MeterConfig F)
    → Result ConfigError (List (String × BusInfo))
fold_meters buses [] = ok buses
fold_meters buses (m ∷ ms) =
    meter_bus_entry m.name m.body >>= λ e. fold_meters (fold_entry buses e) ms

unfoldable pub fold_inverters :
    List (String × BusInfo) → List InverterConfig → Result ConfigError (List (String × BusInfo))
fold_inverters buses [] = ok buses
fold_inverters buses (i ∷ is) =
    master_bus_entry i.name i.master >>= λ e. fold_inverters (fold_bus buses e) is

unfoldable pub derive_buses :
    {F : Type 0} → Devices F → Result ConfigError (List (String × BusInfo))
derive_buses cfg = do buses ← fold_meters [] cfg.meters; fold_inverters buses cfg.inverters

unfoldable pub meter_location_name : MeterLocation → String
meter_location_name feed_in = "feed-in"
meter_location_name consumption = "consumption"

unfoldable pub parse_meter_location : String → Option MeterLocation
parse_meter_location val =
    if val == "feed-in"
    then some feed_in
    else if val == "consumption"
    then some consumption
    else none

pub record DeviceRegistryEntry : Type 0 where
  pub name : String
  pub kind : String
  pub location : Option String
  pub primary : Bool

unfoldable pub derive_device_registry : {F : Type 0} → Devices F → List DeviceRegistryEntry
derive_device_registry cfg =
    map (λ i. record { name = i.name; kind = "inverter"; location = none; primary = false })
      cfg.inverters
    ++ map
        (λ m. record {
          name = m.name;
          kind = "meter";
          location = Option.map meter_location_name m.location;
          primary = m.primary;
        })
        cfg.meters
