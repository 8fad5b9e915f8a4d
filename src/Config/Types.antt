-- ===== src/Config/Types.antt =====
-- The structs of include/config_yaml.h. `F` stands for `double`. An error is the throw statement that
-- raised it, with the values that its message is built from, and not the message's text.
use fronius_bridge.Prelude.{ℕ, ◌≡◌, ◌↔◌, String, Bool, true, false, Option, List, ℤ, Eq, arith}

pub data Parity : Type 0 where
  no_parity even odd : Parity

abbrev pub parity_beq : Parity → Parity → Bool
parity_beq no_parity no_parity = true
parity_beq even even = true
parity_beq odd odd = true
parity_beq _ _ = false

pub parity_beq_iff : (p q : Parity) → (parity_beq p q ≡ true) ↔ (p ≡ q)
parity_beq_iff p q = ground arith

instance abbrev pub parity_eq : Eq Parity
parity_eq = record { beq = parity_beq; beq_iff = parity_beq_iff }

pub record ModbusTcpClientConfig : Type 0 where
  pub host : String
  pub port : ℤ

pub record ModbusTcpServerConfig : Type 0 where
  pub listen : String
  pub port : ℤ

pub record ModbusRtuConfig : Type 0 where
  pub device : String
  pub baud : ℤ
  pub data_bits : ℤ
  pub stop_bits : ℤ
  pub parity : Parity

pub record ReconnectDelayConfig : Type 0 where
  pub min : ℤ
  pub max : ℤ
  pub exponential : Bool

pub record ResponseTimeoutConfig : Type 0 where
  pub sec : ℤ
  pub usec : ℤ

pub record MeterSlaveConfig : Type 0 where
  pub tcp : Option ModbusTcpServerConfig
  pub rtu : Option ModbusRtuConfig
  pub slave_id : ℤ
  pub request_timeout : ℤ
  pub idle_timeout : ℤ
  pub use_float_model : Bool

-- The fields that `InverterConfig` and `FroniusMeterConfig` have in common.
pub record ModbusMaster : Type 0 where
  pub tcp : Option ModbusTcpClientConfig
  pub rtu : Option ModbusRtuConfig
  pub slave_id : ℤ
  pub response_timeout : ResponseTimeoutConfig
  pub update_interval : ℤ
  pub reconnect_delay : ReconnectDelayConfig

pub record InverterConfig : Type 0 where
  pub name : String
  pub master : ModbusMaster
  pub open master use *

pub data MeterLocation : Type 0 where
  feed_in consumption : MeterLocation

pub record GridConfig (F : Type 0) : Type 0 where
  pub power_factor : F
  pub frequency : F
  pub is_leading : Bool

pub record EasyMeterConfig (F : Type 0) : Type 0 where
  pub rtu : ModbusRtuConfig
  pub grid : GridConfig F

-- `std::variant<FroniusMeterConfig, EasyMeterConfig>`
pub data MeterBody (F : Type 0) : Type 0 where
  fronius : ModbusMaster → MeterBody F
  ebz : EasyMeterConfig F → MeterBody F

pub record MeterConfig (F : Type 0) : Type 0 where
  pub name : String
  pub slave : Option MeterSlaveConfig
  pub location : Option MeterLocation
  pub primary : Bool
  pub body : MeterBody F

-- The device sections of `AppConfig`, which the cross-section checks and the bus registry read.
pub record Devices (F : Type 0) : Type 0 where
  pub inverters : List InverterConfig
  pub meters : List (MeterConfig F)

-- The paths are those of PEM files.
pub record MqttTlsConfig : Type 0 where
  pub ca_file : Option String
  pub ca_path : Option String
  pub cert_file : Option String
  pub key_file : Option String
  pub tls_version : Option String
  pub ciphers : Option String
  pub insecure : Bool

pub record MqttConfig : Type 0 where
  pub broker : String
  pub port : ℤ
  pub topic : String
  pub user : Option String
  pub password : Option String
  pub queue_size : ℤ
  pub reconnect_delay : ReconnectDelayConfig
  pub tls : Option MqttTlsConfig

pub record PostgresConfig : Type 0 where
  pub dsn : String
  pub queue_size : ℤ
  pub reconnect_delay : ReconnectDelayConfig
  pub auto_migrate : Bool

-- The levels of spdlog that a configuration can name.
pub data Level : Type 0 where
  off error warn info debug trace : Level

pub record LoggerConfig : Type 0 where
  pub global_level : Level
  pub module_levels : List (String × Level)

pub record SiteConfig (F : Type 0) : Type 0 where
  pub latitude : F
  pub longitude : F
  pub horizon : F

-- The entry that an error message names: `section[index]`, with the device's name.
pub data Section : Type 0 where
  inverters meters meter_slaves : Section

pub record Owner : Type 0 where
  pub section : Section
  pub index : ℕ
  pub name : String

pub data ConfigError : Type 0 where
  -- a null pointer is read: undefined in the source, and never reached from a parsed section
  null_transport : ConfigError
  no_transport : ConfigError
  two_ebz : Owner → Owner → ConfigError
  duplicate_name : Owner → Owner → ConfigError
  duplicate_unit_id : Owner → Owner → ConfigError
  conflicting_lines : Owner → Owner → ConfigError
  same_listen : Owner → Owner → ConfigError
  master_and_slave : Owner → Owner → ConfigError
  two_slaves : Owner → Owner → ConfigError
  master_and_ebz : Owner → Owner → ConfigError
  slave_and_ebz : Owner → Owner → ConfigError
