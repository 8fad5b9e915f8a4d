-- ===== src/Config/Parse/Ranges.antt =====
-- What the parsers promise of the settings that they accept.
use mathlib.Core.Path.{subst}
use fronius_bridge.Prelude.{
  ◌≡◌, ◌⊎◌, refl, Bool, true, false, not, Option, none, some, ℤ, pos, ◌≤ℤ◌, ◌<ℤ◌, has_value, Result,
  ok, throw_if, >>=-eq-ok, arith,
}
use fronius_bridge.Config.Types.{
  ModbusTcpClientConfig, ModbusRtuConfig, ReconnectDelayConfig, ResponseTimeoutConfig, ModbusMaster,
}
use fronius_bridge.Config.Yaml.{
  Yaml, ParseError, not_one_transport, or_default, int_of, text_of, text_required,
}
use fronius_bridge.Config.Parse.{
  check_line_settings, check_polling, is_supported, parse_tcp_client, parse_rtu,
  parse_reconnect_delay, parse_response_timeout, parse_modbus_master, one_of, parity_or_throw,
  parse_parity,
}

abbrev pub Rises : ReconnectDelayConfig → Type 0
Rises d = (pos 0 <ℤ d.min) × (d.min <ℤ d.max)

-- Microseconds are less than a second, and a time of zero is refused.
abbrev pub IsTimeout : ResponseTimeoutConfig → Type 0
IsTimeout t =
    (pos 0 ≤ℤ t.sec)
    × (pos 0 ≤ℤ t.usec)
    × (t.usec ≤ℤ pos 999999)
    × ((pos 0 <ℤ t.sec) ⊎ (pos 0 <ℤ t.usec))

-- A valid port, and settings that a serial line can have.
abbrev pub IsTcp : Option ModbusTcpClientConfig → Type 0
IsTcp none = Unit
IsTcp (some t) = (pos 1 ≤ℤ t.port) × (t.port ≤ℤ pos 65535)

abbrev pub IsRtu : Option ModbusRtuConfig → Type 0
IsRtu none = Unit
IsRtu (some r) =
    (is_supported r.baud ≡ true)
    × (pos 5 ≤ℤ r.data_bits)
    × (r.data_bits ≤ℤ pos 8)
    × (pos 1 ≤ℤ r.stop_bits)
    × (r.stop_bits ≤ℤ pos 2)

abbrev pub OneTransport : ModbusMaster → Type 0
OneTransport m = one_of (has_value m.tcp) (has_value m.rtu) ≡ true

pub record IsInRange (m : ModbusMaster) : Type 0 where
  pub one_transport : OneTransport m
  pub tcp : IsTcp m.tcp
  pub rtu : IsRtu m.rtu
  pub unit_id : (pos 1 ≤ℤ m.slave_id) × (m.slave_id ≤ℤ pos 247)
  pub interval : pos 0 <ℤ m.update_interval
  pub timeout : IsTimeout m.response_timeout
  pub delay : Rises m.reconnect_delay

abbrev IsLine : (baud data_bits stop_bits : ℤ) → Type 0
IsLine baud data_bits stop_bits =
    (is_supported baud ≡ true)
    × (pos 5 ≤ℤ data_bits)
    × (data_bits ≤ℤ pos 8)
    × (pos 1 ≤ℤ stop_bits)
    × (stop_bits ≤ℤ pos 2)

check_line_settings-IsLine :
    (baud data_bits stop_bits : ℤ)
    → check_line_settings baud data_bits stop_bits ≡ ok tt
    → IsLine baud data_bits stop_bits
unfolding check_line_settings
check_line_settings-IsLine baud data_bits stop_bits h = ground arith

pub is_ok :
    {A : Type 0} (P : A → Type 0) (x y : A) → Path (Result ParseError A) (ok x) (ok y) → P x → P y
is_ok {A} P x y h p = subst P (cc h) p

check_polling-ok :
    (slave_id update_interval : ℤ)
    → check_polling slave_id update_interval ≡ ok tt
    → (pos 1 ≤ℤ slave_id) × (slave_id ≤ℤ pos 247) × (pos 0 <ℤ update_interval)
unfolding check_polling
check_polling-ok slave_id update_interval h = ground arith

pub one_transport_ok : (b : Bool) (x : ParseError) → throw_if (not b) x ≡ ok tt → b ≡ true
one_transport_ok true x h = refl
one_transport_ok false x h = cc

module _ {N F : Type 0} (yaml : Yaml N F) where
  parse_reconnect_delay-Rises :
      (node : Option N) (d : ReconnectDelayConfig)
      → parse_reconnect_delay yaml node ≡ ok d
      → Rises d
  unfolding parse_reconnect_delay
  parse_reconnect_delay-Rises none d h = ground arith
  parse_reconnect_delay-Rises (some node) d h = ground arith

  parse_response_timeout-IsTimeout :
      (node : Option N) (t : ResponseTimeoutConfig)
      → parse_response_timeout yaml node ≡ ok t
      → IsTimeout t
  unfolding parse_response_timeout
  parse_response_timeout-IsTimeout none t h = ground arith
  parse_response_timeout-IsTimeout (some node) t h = ground arith

  parse_tcp_client-IsTcp :
      (node : Option N) (t : Option ModbusTcpClientConfig)
      → parse_tcp_client yaml node ≡ ok t
      → IsTcp t
  unfolding parse_tcp_client
  parse_tcp_client-IsTcp none t h = ground arith
  parse_tcp_client-IsTcp (some node) t h = ground arith

  pub parse_rtu-IsRtu :
      (node : Option N) (r : Option ModbusRtuConfig) → parse_rtu yaml node ≡ ok r → IsRtu r
  unfolding parse_rtu
  parse_rtu-IsRtu none r h = is_ok IsRtu none r h tt
  parse_rtu-IsRtu (some node) r h =
      let (device, _, h1) =
        >>=-eq-ok (text_required yaml "rtu.device" (yaml.child node "device")) _ h in
      let baud = or_default (int_of yaml node "baud") (pos 9600) in
      let data_bits = or_default (int_of yaml node "data_bits") (pos 8) in
      let stop_bits = or_default (int_of yaml node "stop_bits") (pos 1) in
      let (_, c, h2) = >>=-eq-ok (check_line_settings baud data_bits stop_bits) _ h1 in
      let (parity, _, h3) =
        >>=-eq-ok (parity_or_throw (parse_parity (or_default (text_of yaml node "parity") "none")))
          _ h2 in
      is_ok IsRtu _ r h3 (check_line_settings-IsLine baud data_bits stop_bits c)

  -- A Modbus master that the parser accepts has exactly one transport, a port, line settings and a unit id in
  -- their ranges, a positive poll interval, a timeout that is not zero, and a reconnect schedule whose least
  -- delay is positive and below its greatest.
  pub parse_modbus_master-IsInRange :
      (node : N) (m : ModbusMaster) → parse_modbus_master yaml node ≡ ok m → IsInRange m
  unfolding parse_modbus_master
  parse_modbus_master-IsInRange node m h =
      let (tcp, a, h1) = >>=-eq-ok (parse_tcp_client yaml (yaml.child node "tcp")) _ h in
      let (rtu, b, h2) = >>=-eq-ok (parse_rtu yaml (yaml.child node "rtu")) _ h1 in
      let (_, c, h3) =
        >>=-eq-ok (throw_if (not (one_of (has_value tcp) (has_value rtu))) not_one_transport) _
          h2 in
      let slave_id = or_default (int_of yaml node "unit_id") (pos 1) in
      let update_interval = or_default (int_of yaml node "update_interval") (pos 4) in
      let (timeout, d, h4) =
        >>=-eq-ok (parse_response_timeout yaml (yaml.child node "response_timeout")) _ h3 in
      let (delay, e, h5) =
        >>=-eq-ok (parse_reconnect_delay yaml (yaml.child node "reconnect_delay")) _ h4 in
      let (_, f, h6) = >>=-eq-ok (check_polling slave_id update_interval) _ h5 in
      let (lo, hi, up) = check_polling-ok slave_id update_interval f in
      is_ok IsInRange _ m h6 (record {
        one_transport =
            one_transport_ok (one_of (has_value tcp) (has_value rtu)) not_one_transport c;
        tcp = parse_tcp_client-IsTcp (yaml.child node "tcp") tcp a;
        rtu = parse_rtu-IsRtu (yaml.child node "rtu") rtu b;
        unit_id = (lo, hi);
        interval = up;
        timeout = parse_response_timeout-IsTimeout (yaml.child node "response_timeout") timeout d;
        delay = parse_reconnect_delay-Rises (yaml.child node "reconnect_delay") delay e;
      })
