-- ===== src/Examples/Site.antt =====
-- A site with an inverter and a meter on one TCP bus and an EasyMeter on a serial line.
use fronius_bridge.Prelude.{
  ◌≡◌, refl, ◌↔◌, ℤ, pos, String, true, false, none, some, List, [], ◌∷◌, ok, Distinct, ℕ, find,
  to_string,
}
use fronius_bridge.Config.Types.{no_parity, ModbusMaster, fronius, ebz, feed_in, Devices}
use fronius_bridge.Config.Validate.Checks.{
  validate_config, find_ebz, check_ebz_name, check_transports, unit_key, check_lines, master_usage,
  check_slaves, check_ebz_line,
}
use fronius_bridge.Config.Validate.Emplace.{emplace_all}
use fronius_bridge.Config.Validate.Refs.{
  masters, inverter_refs, meter_refs, bus_key, bus_key_tcp, bus_key_rtu, master_lines,
  slave_listens, slave_lines,
}
use fronius_bridge.Config.Validate.Spec.{IsValid}
use fronius_bridge.Config.Validate.Exact.{validate_config_iff}
use fronius_bridge.Config.Buses.Derive.{BusInfo, derive_buses}
use fronius_bridge.Config.Buses.Fold.{members_at}
use fronius_bridge.Config.Buses.Unique.{derive_buses_ok}

abbrev master_at : ℤ → ModbusMaster
master_at unit = record {
  tcp = some (record { host = "plant"; port = pos 502 });
  rtu = none;
  slave_id = unit;
  response_timeout = record { sec = pos 5; usec = pos 0 };
  update_interval = pos 5;
  reconnect_delay = record { min = pos 5; max = pos 320; exponential = true };
}

abbrev site : Devices ℕ
site = record {
  inverters = record { name = "roof"; master = master_at (pos 1) } ∷ [];
  meters =
      record {
        name = "house";
        slave = none;
        location = some feed_in;
        primary = true;
        body = fronius (master_at (pos 240));
      }
      ∷ record {
        name = "heat";
        slave = none;
        location = none;
        primary = false;
        body = ebz (record {
          rtu = record {
            device = "/dev/ttyUSB0";
            baud = pos 9600;
            data_bits = pos 7;
            stop_bits = pos 1;
            parity = no_parity;
          };
          grid = record { power_factor = 1; frequency = 50; is_leading = false };
        });
      }
      ∷ [];
}

site_valid : validate_config site ≡ ok tt
unfolding validate_config find_ebz emplace_all masters inverter_refs find meter_refs check_ebz_name
    check_transports bus_key unit_key bus_key_tcp bus_key_rtu to_string check_lines master_lines
    slave_listens slave_lines master_usage check_slaves check_ebz_line
site_valid = refl

validate_config_iff_example : (validate_config site ≡ ok tt) ↔ IsValid site
validate_config_iff_example = validate_config_iff site

derive_buses_ok_example :
    (buses : List (String × BusInfo)) × (derive_buses site ≡ ok buses)
    × ((k : String) → Distinct (λ m. m.slave_id) (members_at k buses))
derive_buses_ok_example = derive_buses_ok site site_valid
