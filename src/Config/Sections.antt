-- ===== src/Config/Sections.antt =====
-- The parsers of the device sections: `parseInverters`, `parseMeters` and what they call.
pub mod Ranges
use fronius_bridge.Prelude.{
  ℕ, suc, ◌+◌, String, false, ◌||◌, ◌&&◌, not, Option, none, some, List, [], ◌∷◌, pos, ltb, ltb_ℤ,
  leb_ℤ, ◌==◌, text_eq, if◌then◌else◌, has_value, Result, ok, err, ◌>>=◌, ◌>>◌, throw_if,
}
use fronius_bridge.Doubles.{Doubles}
use fronius_bridge.Config.Types.{
  MeterSlaveConfig, InverterConfig, MeterLocation, GridConfig, EasyMeterConfig, MeterBody, fronius,
  ebz, MeterConfig, Section, inverters, meters,
}
use fronius_bridge.Config.Yaml.{
  Yaml, ParseError, required, not_in_range, not_one_transport, bad_conversion, not_a_sequence,
  not_valid_for_ebz, unknown, two_primary, in_slave, at_entry, rethrow, or_default, or_throw,
  int_of, text_of, flag_of, number_of,
}
use fronius_bridge.Config.Names.{parse_name}
use fronius_bridge.Config.Parse.{within, one_of, parse_tcp_server, parse_rtu, parse_modbus_master}
use fronius_bridge.Config.Buses.Derive.{parse_meter_location}

-- The loop over a section's entries: the first that is refused ends it.
unfoldable pub parse_entries :
    {N A : Type 0} → Section → (N → Result ParseError A) → ℕ → List N → Result ParseError (List A)
parse_entries section parse i [] = ok []
parse_entries section parse i (node ∷ nodes) = do
  x ← rethrow (at_entry section i) (parse node)
  xs ← parse_entries section parse (suc i) nodes
  ok (x ∷ xs)

abbrev pub check_slave : MeterSlaveConfig → Result ParseError (Unit {0})
check_slave cfg = do
  throw_if (not (within (pos 1) (pos 247) cfg.slave_id)) (not_in_range "unit_id")
  throw_if (leb_ℤ cfg.request_timeout (pos 0)) (not_in_range "request_timeout")
  throw_if (ltb_ℤ cfg.idle_timeout cfg.request_timeout) (not_in_range "idle_timeout")

abbrev pub count_primary : {F : Type 0} → List (MeterConfig F) → ℕ
count_primary [] = 0
count_primary (m ∷ ms) = (if m.primary then 1 else 0) + count_primary ms

abbrev pub first_present :
    {N F : Type 0} → Yaml N F → N → List String → Result ParseError (Unit {0})
first_present yaml node [] = ok tt
first_present yaml node (key ∷ keys) = do
  throw_if (has_value (yaml.child node key)) (not_valid_for_ebz key)
  first_present yaml node keys

-- Settings of a Modbus meter.
abbrev pub unused_keys : List String
unused_keys = "tcp" ∷ "unit_id" ∷ "update_interval" ∷ "response_timeout" ∷ "reconnect_delay" ∷ []

module _ {F : Type 0} (dbl : Doubles F) where
  abbrev pub default_grid : GridConfig F
  default_grid = record {
    power_factor = dbl.literal "0.95";
    frequency = dbl.literal "50.0";
    is_leading = false;
  }

module _ {N F : Type 0} (yaml : Yaml N F) (dbl : Doubles F) where
  unfoldable pub parse_section :
      {A : Type 0} → Section → (N → Result ParseError A) → Option N → Result ParseError (List A)
  unfolding parse_entries
  parse_section section parse none = ok []
  parse_section section parse (some node) =
      if yaml.is_sequence node
      then parse_entries section parse 0 (yaml.items node)
      else err (not_a_sequence section)

  unfoldable pub parse_inverter : N → Result ParseError InverterConfig
  parse_inverter node = do
    master ← parse_modbus_master yaml node
    name ← parse_name yaml node
    ok (record { name = name; master = master })

  abbrev pub parse_inverters : Option N → Result ParseError (List InverterConfig)
  parse_inverters = parse_section inverters parse_inverter

  unfoldable pub parse_meter_slave : Option N → Result ParseError (Option MeterSlaveConfig)
  parse_meter_slave none = ok none
  parse_meter_slave (some node) = do
    tcp ← parse_tcp_server yaml (yaml.child node "tcp")
    rtu ← parse_rtu yaml (yaml.child node "rtu")
    throw_if (not (one_of (has_value tcp) (has_value rtu))) not_one_transport
    let cfg : MeterSlaveConfig = record {
      tcp = tcp;
      rtu = rtu;
      slave_id = or_default (int_of yaml node "unit_id") (pos 1);
      request_timeout = or_default (int_of yaml node "request_timeout") (pos 5);
      idle_timeout = or_default (int_of yaml node "idle_timeout") (pos 60);
      use_float_model = or_default (flag_of yaml node "use_float_model") false;
    }
    check_slave cfg
    ok (some cfg)

  unfoldable pub parse_grid : Option N → Result ParseError (GridConfig F)
  parse_grid none = ok (default_grid dbl)
  parse_grid (some node) = do
    let power_factor = or_default (number_of yaml node "power_factor") (dbl.literal "0.95")
    let frequency = or_default (number_of yaml node "frequency") (dbl.literal "50.0")
    throw_if
        (dbl.less_eq power_factor (dbl.literal "0.0") || dbl.less (dbl.literal "1.0") power_factor)
        (not_in_range "grid.power_factor")
    throw_if (dbl.less_eq frequency (dbl.literal "0.0")) (not_in_range "grid.frequency")
    ok (record {
      power_factor = power_factor;
      frequency = frequency;
      is_leading = or_default (flag_of yaml node "leading") false;
    })

  unfoldable pub parse_easy_meter : N → Result ParseError (EasyMeterConfig F)
  unfolding parse_grid
  parse_easy_meter node = do
    first_present yaml node unused_keys
    found ← parse_rtu yaml (yaml.child node "rtu")
    rtu ← or_throw (required "rtu") found
    grid ← parse_grid (yaml.child node "grid")
    ok (record { rtu = rtu; grid = grid })

  unfoldable pub parse_location : Option N → Result ParseError (Option MeterLocation)
  parse_location none = ok none
  parse_location (some node) = do
    val ← or_throw bad_conversion (yaml.as_text node)
    location ← or_throw (unknown "location" val) (parse_meter_location val)
    ok (some location)

  unfoldable pub parse_body : N → (type : String) → Result ParseError (MeterBody F)
  unfolding parse_easy_meter
  parse_body node type =
      if type == "fronius"
      then (throw_if (has_value (yaml.child node "grid")) (not_in_range "grid")
          >> (parse_modbus_master yaml node >>= λ master. ok (fronius master)))
      else if type == "ebz"
      then (parse_easy_meter node >>= λ body. ok (ebz body))
      else err (unknown "type" type)

  unfoldable pub parse_meter : N → Result ParseError (MeterConfig F)
  unfolding parse_meter_slave parse_location parse_body
  parse_meter node = do
    name ← parse_name yaml node
    slave ← rethrow in_slave (parse_meter_slave (yaml.child node "slave"))
    location ← parse_location (yaml.child node "location")
    let primary = or_default (flag_of yaml node "primary") false
    throw_if (primary && not (has_value location)) (required "location")
    body ← parse_body node (or_default (text_of yaml node "type") "fronius")
    ok (record { name = name; slave = slave; location = location; primary = primary; body = body })

  unfoldable pub parse_meters : Option N → Result ParseError (List (MeterConfig F))
  unfolding parse_section parse_meter
  parse_meters node = do
    result ← parse_section meters parse_meter node
    throw_if (ltb 1 (count_primary result)) two_primary
    ok result
