-- ===== src/Config/Sections/Ranges.antt =====
-- What `parseMeterSlave` and `parseGrid` promise of the settings that they accept.
use fronius_bridge.Prelude.{
  ◌≡◌, ◌⊎◌, inl, inr, refl, Bool, true, false, Option, none, some, pos, ◌≤ℤ◌, ◌<ℤ◌, not, ◌||◌,
  has_value, ok, throw_if, >>=-eq-ok, arith,
}
use fronius_bridge.Doubles.{Doubles}
use fronius_bridge.Config.Types.{MeterSlaveConfig, ModbusTcpServerConfig, GridConfig}
use fronius_bridge.Config.Yaml.{
  Yaml, ParseError, not_in_range, not_one_transport, or_default, int_of, flag_of, number_of,
}
use fronius_bridge.Config.Parse.{parse_tcp_server, parse_rtu, one_of}
use fronius_bridge.Config.Parse.Ranges.{IsRtu, parse_rtu-IsRtu, is_ok, one_transport_ok}
use fronius_bridge.Config.Sections.{check_slave, parse_meter_slave, parse_grid, default_grid}

abbrev pub IsServer : Option ModbusTcpServerConfig → Type 0
IsServer none = Unit
IsServer (some t) = (pos 1 ≤ℤ t.port) × (t.port ≤ℤ pos 65535)

pub record IsSlave (s : MeterSlaveConfig) : Type 0 where
  pub one_transport : one_of (has_value s.tcp) (has_value s.rtu) ≡ true
  pub tcp : IsServer s.tcp
  pub rtu : IsRtu s.rtu
  pub unit_id : (pos 1 ≤ℤ s.slave_id) × (s.slave_id ≤ℤ pos 247)
  pub request : pos 0 <ℤ s.request_timeout
  pub idle : s.request_timeout ≤ℤ s.idle_timeout

abbrev pub IsSlaveIfAny : Option MeterSlaveConfig → Type 0
IsSlaveIfAny none = Unit
IsSlaveIfAny (some s) = IsSlave s

check_slave-ok :
    (s : MeterSlaveConfig)
    → check_slave s ≡ ok tt
    → (pos 1 ≤ℤ s.slave_id)
      × (s.slave_id ≤ℤ pos 247)
      × (pos 0 <ℤ s.request_timeout)
      × (s.request_timeout ≤ℤ s.idle_timeout)
check_slave-ok s h = ground arith

module _ {F : Type 0} (dbl : Doubles F) where
  -- The defaults, or a power factor above 0.0 and no more than 1.0, and a positive frequency.
  abbrev pub IsGrid : GridConfig F → Type 0
  IsGrid g =
      (g ≡ default_grid dbl)
      ⊎ ((dbl.less_eq g.power_factor (dbl.literal "0.0") ≡ false)
          × (dbl.less (dbl.literal "1.0") g.power_factor ≡ false)
          × (dbl.less_eq g.frequency (dbl.literal "0.0") ≡ false))

refused-or : (a b : Bool) (e : ParseError) → throw_if (a || b) e ≡ ok tt → (a ≡ false) × (b ≡ false)
refused-or a b e h = ground arith

refused : (a : Bool) (e : ParseError) → throw_if a e ≡ ok tt → a ≡ false
refused a e h = ground arith

module _ {N F : Type 0} (yaml : Yaml N F) (dbl : Doubles F) where
  parse_tcp_server-IsServer :
      (node : Option N) (t : Option ModbusTcpServerConfig)
      → parse_tcp_server yaml node ≡ ok t
      → IsServer t
  unfolding parse_tcp_server
  parse_tcp_server-IsServer none t h = ground arith
  parse_tcp_server-IsServer (some node) t h = ground arith

  pub parse_meter_slave-IsSlave :
      (node : Option N) (s : Option MeterSlaveConfig)
      → parse_meter_slave yaml dbl node ≡ ok s
      → IsSlaveIfAny s
  unfolding parse_meter_slave
  parse_meter_slave-IsSlave none s h = is_ok IsSlaveIfAny none s h tt
  parse_meter_slave-IsSlave (some node) s h =
      let (tcp, a, h1) = >>=-eq-ok (parse_tcp_server yaml (yaml.child node "tcp")) _ h in
      let (rtu, b, h2) = >>=-eq-ok (parse_rtu yaml (yaml.child node "rtu")) _ h1 in
      let (_, c, h3) =
        >>=-eq-ok (throw_if (not (one_of (has_value tcp) (has_value rtu))) not_one_transport) _
          h2 in
      let cfg : MeterSlaveConfig = record {
        tcp = tcp;
        rtu = rtu;
        slave_id = or_default (int_of yaml node "unit_id") (pos 1);
        request_timeout = or_default (int_of yaml node "request_timeout") (pos 5);
        idle_timeout = or_default (int_of yaml node "idle_timeout") (pos 60);
        use_float_model = or_default (flag_of yaml node "use_float_model") false;
      } in
      let (_, d, h4) = >>=-eq-ok (check_slave cfg) _ h3 in
      let (lo, hi, up, idle) = check_slave-ok cfg d in
      is_ok IsSlaveIfAny _ s h4 (record {
        one_transport =
            one_transport_ok (one_of (has_value tcp) (has_value rtu)) not_one_transport c;
        tcp = parse_tcp_server-IsServer (yaml.child node "tcp") tcp a;
        rtu = parse_rtu-IsRtu yaml (yaml.child node "rtu") rtu b;
        unit_id = (lo, hi);
        request = up;
        idle = idle;
      })

  pub parse_grid-IsGrid :
      (node : Option N) (g : GridConfig F) → parse_grid yaml dbl node ≡ ok g → IsGrid dbl g
  unfolding parse_grid
  parse_grid-IsGrid none g h = is_ok (IsGrid dbl) (default_grid dbl) g h (inl refl)
  parse_grid-IsGrid (some node) g h =
      let factor = or_default (number_of yaml node "power_factor") (dbl.literal "0.95") in
      let frequency = or_default (number_of yaml node "frequency") (dbl.literal "50.0") in
      let low = dbl.less_eq factor (dbl.literal "0.0") in
      let high = dbl.less (dbl.literal "1.0") factor in
      let still = dbl.less_eq frequency (dbl.literal "0.0") in
      let (_, a, h1) = >>=-eq-ok (throw_if (low || high) (not_in_range "grid.power_factor")) _ h in
      let (_, b, h2) = >>=-eq-ok (throw_if still (not_in_range "grid.frequency")) _ h1 in
      let (over, under) = refused-or low high (not_in_range "grid.power_factor") a in
      is_ok (IsGrid dbl) _ g h2 (inr (over, under, refused still (not_in_range "grid.frequency") b))
