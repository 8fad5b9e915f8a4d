-- ===== src/Config/Load.antt =====
-- `loadConfig` of src/config_yaml.cpp, from the parsed document on.
pub mod Sound
use fronius_bridge.Prelude.{
  String, Bool, true, false, ◌&&◌, Option, none, some, List, [], ◌∷◌, Result, ok, err, ◌>>=◌, ◌>>◌,
  throw_if,
}
use fronius_bridge.Doubles.{Doubles}
use fronius_bridge.Config.Types.{
  InverterConfig, MeterConfig, MqttConfig, PostgresConfig, LoggerConfig, SiteConfig, Devices,
}
use fronius_bridge.Config.Yaml.{Yaml, ParseError, no_devices, in_config, rethrow}
use fronius_bridge.Config.Sections.{parse_inverters, parse_meters}
use fronius_bridge.Config.Services.{parse_mqtt, parse_postgres, parse_logger, parse_site}
use fronius_bridge.Config.Validate.Checks.{validate_config}
use fronius_bridge.Config.Buses.Derive.{
  BusInfo, derive_buses, DeviceRegistryEntry, derive_device_registry,
}

pub record AppConfig (F : Type 0) : Type 0 where
  pub devices : Devices F
  pub open devices use *
  pub mqtt : MqttConfig
  pub postgres : Option PostgresConfig
  pub logger : LoggerConfig
  pub site : Option (SiteConfig F)
  pub buses : List (String × BusInfo)
  pub device_registry : List DeviceRegistryEntry

abbrev pub is_nil : {A : Type 0} → List A → Bool
is_nil [] = true
is_nil (_ ∷ _) = false

module _ {N F : Type 0} (yaml : Yaml N F) (dbl : Doubles F) where
  unfoldable pub site_if_present : Option N → Result ParseError (Option (SiteConfig F))
  site_if_present none = ok none
  site_if_present (some node) = parse_site yaml dbl node >>= λ site. ok (some site)

  unfoldable pub load_config : (root : N) → Result ParseError (AppConfig F)
  unfolding site_if_present
  load_config root = do
    inverters ← parse_inverters yaml dbl (yaml.child root "inverters")
    meters ← parse_meters yaml dbl (yaml.child root "meters")
    throw_if (is_nil inverters && is_nil meters) no_devices
    mqtt ← parse_mqtt yaml (yaml.child root "mqtt")
    postgres ← parse_postgres yaml (yaml.child root "postgres")
    logger ← parse_logger yaml (yaml.child root "logger")
    site ← site_if_present (yaml.child root "site")
    let cfg : Devices F = record { inverters = inverters; meters = meters }
    rethrow in_config (validate_config cfg)
    buses ← rethrow in_config (derive_buses cfg)
    ok (record {
      devices = cfg;
      mqtt = mqtt;
      postgres = postgres;
      logger = logger;
      site = site;
      buses = buses;
      device_registry = derive_device_registry cfg;
    })
