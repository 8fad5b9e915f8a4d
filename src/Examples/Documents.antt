-- ===== src/Examples/Documents.antt =====
-- A configuration document with an inverter, a Modbus meter with a slave, and an EasyMeter.
use fronius_bridge.Prelude.{
  ◌≡◌, refl, ℕ, pos, true, false, none, some, ok, find, to_string, String, Option,
}
use fronius_bridge.Main.Start.{Options, Action, add_bus, plan, start}
use fronius_bridge.Main.Start.Ordered.{guards, start-guarded}
use fronius_bridge.Main.Start.Completes.{start_complete}
use fronius_bridge.Config.Types.{ModbusMaster}
use fronius_bridge.Config.Names.{check_name}
use fronius_bridge.Config.Parse.{
  parse_modbus_master, parse_tcp_client, parse_rtu, parse_response_timeout, parse_reconnect_delay,
  check_polling, parse_tcp_server, check_line_settings, is_supported, parse_parity,
}
use fronius_bridge.Config.Parse.Ranges.{parse_modbus_master-IsInRange}
use fronius_bridge.Config.Document.{
  Doc, whole, words, flag, sequence, section, end, item, nothing, field, document, write_master,
}
use fronius_bridge.Config.Document.Written.{parse_modbus_master-written}
use fronius_bridge.Config.Load.{AppConfig, load_config, site_if_present}
use fronius_bridge.Examples.Database.{floats}
use fronius_bridge.Config.Sections.{
  parse_section, parse_entries, parse_inverter, parse_meters, parse_meter, parse_meter_slave,
  parse_location, parse_body, parse_easy_meter, parse_grid,
}
use fronius_bridge.Config.Services.{
  parse_mqtt, parse_positive_size, parse_mqtt_tls, parse_postgres, parse_logger, parse_modules,
}
use fronius_bridge.Config.Validate.Checks.{
  validate_config, find_ebz, check_ebz_name, check_transports, unit_key, check_lines, master_usage,
  check_slaves, check_ebz_line,
}
use fronius_bridge.Config.Validate.Emplace.{emplace_all}
use fronius_bridge.Config.Validate.Refs.{
  masters, inverter_refs, meter_refs, bus_key, bus_key_tcp, bus_key_rtu, master_lines,
  slave_listens, slave_lines,
}
use fronius_bridge.Config.Buses.Derive.{
  derive_buses, fold_meters, fold_inverters, fold_bus, meter_bus_entry, master_bus_entry,
  make_bus_config, transport_of, merge_reconnect_delay, derive_device_registry, meter_location_name,
  parse_meter_location,
}

-- A master on TCP with the settings' defaults.
abbrev roof_node : Doc ℕ
roof_node = section (
    field "name" (words "roof")
      (field "tcp" (section (field "host" (words "plant") nothing)) nothing))

abbrev parsed_master : ModbusMaster
parsed_master = record {
  tcp = some (record { host = "plant"; port = pos 502 });
  rtu = none;
  slave_id = pos 1;
  response_timeout = record { sec = pos 5; usec = pos 0 };
  update_interval = pos 4;
  reconnect_delay = record { min = pos 5; max = pos 320; exponential = true };
}

parses : parse_modbus_master document roof_node ≡ ok parsed_master
unfolding parse_modbus_master parse_tcp_client parse_rtu parse_response_timeout
    parse_reconnect_delay check_polling
parses = refl

parse_modbus_master-written_example :
    parse_modbus_master document (write_master {F = ℕ} parsed_master) ≡ ok parsed_master
parse_modbus_master-written_example =
    parse_modbus_master-written ℕ parsed_master
      (parse_modbus_master-IsInRange document roof_node parsed_master parses)

abbrev house_node : Doc ℕ
house_node = section (
    field "name" (words "house") (
      field "unit_id" (whole (pos 240)) (
        field "primary" (flag true) (
          field "location" (words "feed-in") (
            field "slave" (section (field "tcp" (section nothing) nothing))
              (field "tcp" (section (field "host" (words "plant") nothing)) nothing))))))

abbrev heat_node : Doc ℕ
heat_node = section (
    field "name" (words "heat") (
      field "type" (words "ebz")
        (field "rtu" (section (field "device" (words "/dev/ttyUSB0") nothing)) nothing)))

abbrev root : Doc ℕ
root = section (
    field "inverters" (sequence (item roof_node end)) (
      field "meters" (sequence (item house_node (item heat_node end)))
        (field "mqtt" (section nothing) nothing)))

loads : (app : AppConfig ℕ) × (load_config document floats root ≡ ok app)
unfolding load_config site_if_present parse_section parse_entries parse_inverter parse_modbus_master
    check_name parse_meters parse_meter parse_meter_slave parse_location parse_body parse_easy_meter
    parse_grid parse_tcp_client parse_tcp_server parse_rtu check_line_settings is_supported
    parse_parity parse_response_timeout parse_reconnect_delay check_polling parse_meter_location
    parse_mqtt parse_positive_size parse_mqtt_tls parse_postgres parse_logger parse_modules
    validate_config find_ebz emplace_all masters inverter_refs find meter_refs check_ebz_name
    check_transports bus_key unit_key bus_key_tcp bus_key_rtu to_string check_lines master_lines
    slave_listens slave_lines master_usage check_slaves check_ebz_line derive_buses fold_meters
    fold_inverters fold_bus meter_bus_entry master_bus_entry make_bus_config transport_of
    merge_reconnect_delay derive_device_registry meter_location_name
loads = (_, refl)

abbrev dropping : Options
dropping = record { run_user = "bridge"; run_group = ""; no_migrate = false }

-- A bus cannot be made.
abbrev bus_throws : Action → Option String
bus_throws (add_bus key) = some "no memory"
bus_throws a = none

start-guarded_example :
    guards false (start bus_throws "map::at" (plan true dropping loads.0)).0 ≡ true
start-guarded_example = start-guarded bus_throws "map::at" dropping loads.0 refl

start_complete_example :
    start (λ a. none) "map::at" (plan true dropping loads.0) ≡ (plan true dropping loads.0, none)
start_complete_example =
    start_complete (λ a. none) "map::at" document floats root loads.0 true dropping loads.1
      (λ a. refl)
