-- ===== src/Config/Parse.antt =====
-- The parsers of src/config_yaml.cpp that the Modbus masters and the meter slaves share.
pub mod Ranges
use fronius_bridge.Prelude.{
  String, Bool, true, false, ◌||◌, ◌&&◌, not, Option, none, some, List, [], ◌∷◌, ℤ, pos, ltb_ℤ,
  leb_ℤ, int_beq, ◌==◌, text_eq, if◌then◌else◌, has_value, Result, ok, err, ◌>>=◌, ◌>>◌, throw_if,
}
use fronius_bridge.Config.Types.{
  Parity, no_parity, even, odd, ModbusTcpClientConfig, ModbusTcpServerConfig, ModbusRtuConfig,
  ReconnectDelayConfig, ResponseTimeoutConfig, ModbusMaster,
}
use fronius_bridge.Config.Yaml.{
  Yaml, ParseError, required, not_in_range, not_one_transport, or_default, or_throw, int_of,
  text_of, flag_of, text_required,
}

abbrev pub within : ℤ → ℤ → ℤ → Bool
within lo hi n = leb_ℤ lo n && leb_ℤ n hi

abbrev pub supported_bauds : List ℤ
supported_bauds =
    pos 1200
    ∷ pos 2400
    ∷ pos 4800
    ∷ pos 9600
    ∷ pos 19200
    ∷ pos 38400
    ∷ pos 57600
    ∷ pos 115200
    ∷ pos 230400
    ∷ pos 460800
    ∷ []

abbrev pub among : ℤ → List ℤ → Bool
among n [] = false
among n (m ∷ ms) = int_beq m n || among n ms

-- `lookupBaud`, of which the parser uses that there is a result.
unfoldable pub is_supported : ℤ → Bool
is_supported baud = among baud supported_bauds

unfoldable pub parse_parity : String → Option Parity
parse_parity val =
    if val == "none"
    then some no_parity
    else if val == "even"
    then some even
    else if val == "odd"
    then some odd
    else none

abbrev pub parity_or_throw : Option Parity → Result ParseError Parity
parity_or_throw none = err (not_in_range "rtu.parity")
parity_or_throw (some p) = ok p

unfoldable pub check_line_settings : (baud data_bits stop_bits : ℤ) → Result ParseError (Unit {0})
unfolding is_supported
check_line_settings baud data_bits stop_bits = do
  throw_if (not (is_supported baud)) (not_in_range "rtu.baud")
  throw_if (not (within (pos 5) (pos 8) data_bits)) (not_in_range "rtu.data_bits")
  throw_if (not (within (pos 1) (pos 2) stop_bits)) (not_in_range "rtu.stop_bits")

abbrev pub default_reconnect_delay : ReconnectDelayConfig
default_reconnect_delay = record { min = pos 5; max = pos 320; exponential = true }

abbrev pub one_of : Bool → Bool → Bool
one_of true b = not b
one_of false b = b

unfoldable pub check_polling : (slave_id update_interval : ℤ) → Result ParseError (Unit {0})
check_polling slave_id update_interval = do
  throw_if (not (within (pos 1) (pos 247) slave_id)) (not_in_range "unit_id")
  throw_if (leb_ℤ update_interval (pos 0)) (not_in_range "update_interval")

module _ {N F : Type 0} (yaml : Yaml N F) where
  unfoldable pub parse_tcp_client : Option N → Result ParseError (Option ModbusTcpClientConfig)
  parse_tcp_client none = ok none
  parse_tcp_client (some node) = do
    host ← text_required yaml "tcp.host" (yaml.child node "host")
    let port = or_default (int_of yaml node "port") (pos 502)
    throw_if (not (within (pos 1) (pos 65535) port)) (not_in_range "tcp.port")
    ok (some (record { host = host; port = port }))

  unfoldable pub parse_tcp_server : Option N → Result ParseError (Option ModbusTcpServerConfig)
  parse_tcp_server none = ok none
  parse_tcp_server (some node) = do
    let port = or_default (int_of yaml node "port") (pos 502)
    throw_if (not (within (pos 1) (pos 65535) port)) (not_in_range "tcp.port")
    ok (some (record { listen = or_default (text_of yaml node "listen") "0.0.0.0"; port = port }))

  unfoldable pub parse_rtu : Option N → Result ParseError (Option ModbusRtuConfig)
  unfolding check_line_settings parse_parity
  parse_rtu none = ok none
  parse_rtu (some node) = do
    device ← text_required yaml "rtu.device" (yaml.child node "device")
    let baud = or_default (int_of yaml node "baud") (pos 9600)
    let data_bits = or_default (int_of yaml node "data_bits") (pos 8)
    let stop_bits = or_default (int_of yaml node "stop_bits") (pos 1)
    check_line_settings baud data_bits stop_bits
    parity ← parity_or_throw (parse_parity (or_default (text_of yaml node "parity") "none"))
    ok (
        some (record {
          device = device;
          baud = baud;
          data_bits = data_bits;
          stop_bits = stop_bits;
          parity = parity;
        }))

  unfoldable pub parse_reconnect_delay : Option N → Result ParseError ReconnectDelayConfig
  parse_reconnect_delay none = ok default_reconnect_delay
  parse_reconnect_delay (some node) = do
    let lo = or_default (int_of yaml node "min") (pos 5)
    let hi = or_default (int_of yaml node "max") (pos 320)
    throw_if (leb_ℤ lo (pos 0)) (not_in_range "reconnect_delay.min")
    throw_if (leb_ℤ hi (pos 0)) (not_in_range "reconnect_delay.max")
    throw_if (leb_ℤ hi lo) (not_in_range "reconnect_delay.min")
    ok (record {
      min = lo;
      max = hi;
      exponential = or_default (flag_of yaml node "exponential") true;
    })

  unfoldable pub parse_response_timeout : Option N → Result ParseError ResponseTimeoutConfig
  parse_response_timeout none = ok (record { sec = pos 5; usec = pos 0 })
  parse_response_timeout (some node) = do
    let sec = or_default (int_of yaml node "sec") (pos 5)
    let usec = or_default (int_of yaml node "usec") (pos 0)
    throw_if (ltb_ℤ sec (pos 0)) (not_in_range "response_timeout.sec")
    throw_if (not (within (pos 0) (pos 999999) usec)) (not_in_range "response_timeout.usec")
    throw_if (int_beq sec (pos 0) && int_beq usec (pos 0)) (not_in_range "response_timeout")
    ok (record { sec = sec; usec = usec })

  unfoldable pub parse_modbus_master : N → Result ParseError ModbusMaster
  unfolding parse_tcp_client parse_rtu parse_response_timeout parse_reconnect_delay check_polling
  parse_modbus_master node = do
    tcp ← parse_tcp_client (yaml.child node "tcp")
    rtu ← parse_rtu (yaml.child node "rtu")
    throw_if (not (one_of (has_value tcp) (has_value rtu))) not_one_transport
    let slave_id = or_default (int_of yaml node "unit_id") (pos 1)
    let update_interval = or_default (int_of yaml node "update_interval") (pos 4)
    timeout ← parse_response_timeout (yaml.child node "response_timeout")
    delay ← parse_reconnect_delay (yaml.child node "reconnect_delay")
    check_polling slave_id update_interval
    ok (record {
      tcp = tcp;
      rtu = rtu;
      slave_id = slave_id;
      response_timeout = timeout;
      update_interval = update_interval;
      reconnect_delay = delay;
    })
