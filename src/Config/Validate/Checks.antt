-- ===== src/Config/Validate/Checks.antt =====
-- The checks of `validateConfig`, in its order.
use fronius_bridge.Prelude.{
  ℕ, ◌+◌, ℤ, String, Bool, Option, none, some, List, [], ◌∷◌, ◌==◌, ◌&&◌, find, if◌then◌else◌,
  Result, ok, err, ◌>>=◌, ◌>>◌, text_eq, int_eq, pair_eq, option_eq,
}
use fronius_bridge.Config.Types.{
  ModbusTcpServerConfig, ModbusRtuConfig, MeterConfig, Devices, Owner, meters, parity_eq,
  ConfigError, null_transport, two_ebz, duplicate_name, duplicate_unit_id, conflicting_lines,
  same_listen, master_and_slave, two_slaves, master_and_ebz, slave_and_ebz,
}
use fronius_bridge.Config.Validate.Emplace.{emplace_all}
use fronius_bridge.Config.Validate.Refs.{
  DeviceRef, Line, bus_key, owner_of, as_easy_meter, masters, master_lines, slave_listens,
  slave_lines,
}

-- At most one EasyMeter: a second one is an error.
unfoldable pub find_ebz :
    {F : Type 0} → Option Line → ℕ → List (MeterConfig F) → Result ConfigError (Option Line)
find_ebz seen i [] = ok seen
find_ebz seen i (m ∷ ms) = elim (as_easy_meter m.body) [
  | none ↦ find_ebz seen (i + 1) ms
  | some e ↦ elim seen [
    | none ↦ find_ebz (some (owner_of meters i m.name, e.rtu)) (i + 1) ms
    | some first ↦ err (two_ebz first.0 (owner_of meters i m.name))
  ]
]

-- The EasyMeter's name joins the names of the masters.
unfoldable pub check_ebz_name : List (String × Owner) → Option Line → Result ConfigError (Unit {0})
check_ebz_name names none = ok tt
check_ebz_name names (some (o, r)) = elim (find o.name names) [
  | none ↦ ok tt
  | some other ↦ err (duplicate_name other o)
]

-- `busKey` reads `*d.tcp` where `d.rtu` is null.
unfoldable pub check_transports : List DeviceRef → Result ConfigError (Unit {0})
check_transports [] = ok tt
check_transports (d ∷ ds) =
    let rest = check_transports ds in elim (bus_key d) [ none ↦ err null_transport | some k ↦ rest ]

abbrev pub same_line : ModbusRtuConfig → ModbusRtuConfig → Bool
same_line r o =
    r.baud == o.baud
    && r.data_bits == o.data_bits
    && r.stop_bits == o.stop_bits
    && r.parity == o.parity

-- The first master on a serial device is the reference for the later ones.
unfoldable pub check_lines : List (String × Line) → List Line → Result ConfigError (Unit {0})
check_lines seen [] = ok tt
check_lines seen ((o, r) ∷ ls) =
    let first = check_lines ((r.device, (o, r)) ∷ seen) ls in
    let rest = check_lines seen ls in
    elim (find r.device seen) [
      | none ↦ first
      | some (p, q) ↦ if same_line q r then rest else err (conflicting_lines p o)
    ]

-- `masterUsage.emplace`: the first master on a device is kept.
unfoldable pub master_usage : List (String × Owner) → List Line → List (String × Owner)
master_usage seen [] = seen
master_usage seen ((o, r) ∷ ls) = elim (find r.device seen) [
  | none ↦ master_usage ((r.device, o) ∷ seen) ls
  | some p ↦ master_usage seen ls
]

unfoldable pub check_slaves :
    List (String × Owner)
    → List (String × Owner)
    → List Line
    → Result ConfigError (List (String × Owner))
check_slaves usage seen [] = ok seen
check_slaves usage seen ((o, r) ∷ ls) =
    let rest = check_slaves usage ((r.device, o) ∷ seen) ls in
    elim (find r.device usage) [
      | some master ↦ err (master_and_slave master o)
      | none ↦ elim (find r.device seen) [ some other ↦ err (two_slaves other o) | none ↦ rest ]
    ]

unfoldable pub check_ebz_line :
    List (String × Owner) → List (String × Owner) → Option Line → Result ConfigError (Unit {0})
check_ebz_line usage slaves none = ok tt
check_ebz_line usage slaves (some (o, r)) = elim (find r.device usage) [
  | some master ↦ err (master_and_ebz master o)
  | none ↦ elim (find r.device slaves) [ some slave ↦ err (slave_and_ebz slave o) | none ↦ ok tt ]
]

abbrev pub ref_name : DeviceRef → String
ref_name d = d.owner.name

-- Two devices on a bus must not share a unit id: the key of `byBusSlave`.
unfoldable pub unit_key : DeviceRef → Option String × ℤ
unfolding bus_key
unit_key d = (bus_key d, d.slave_id)

-- What a slave binds: the key of `byListen`.
abbrev pub listen_key : Owner × ModbusTcpServerConfig → String × ℤ
listen_key (o, t) = (t.listen, t.port)

abbrev pub clash_names : Owner → DeviceRef → ConfigError
clash_names o d = duplicate_name o d.owner

abbrev pub clash_units : Owner → DeviceRef → ConfigError
clash_units o d = duplicate_unit_id o d.owner

abbrev pub clash_listens : Owner → Owner × ModbusTcpServerConfig → ConfigError
clash_listens o e = same_listen o e.0

unfoldable pub validate_config : {F : Type 0} → Devices F → Result ConfigError (Unit {0})
validate_config cfg = do
  let refs = masters cfg
  ebz ← find_ebz none 0 cfg.meters
  names ← emplace_all ref_name (λ d. d.owner) clash_names [] refs
  check_ebz_name names ebz
  check_transports refs
  units ← emplace_all unit_key (λ d. d.owner) clash_units [] refs
  check_lines [] (master_lines refs)
  listens ← emplace_all listen_key (λ e. e.0) clash_listens [] (slave_listens 0 cfg.meters)
  let usage = master_usage [] (master_lines refs)
  slaves ← check_slaves usage [] (slave_lines 0 cfg.meters)
  check_ebz_line usage slaves ebz
