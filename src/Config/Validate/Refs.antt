-- ===== src/Config/Validate/Refs.antt =====
-- The views of the sections that `validateConfig` collects before it checks them.
use fronius_bridge.Prelude.{
  ℕ, ◌+◌, String, append, Option, none, some, List, [], ◌∷◌, ◌++◌, ℤ, to_string,
}
use fronius_bridge.Config.Types.{
  ModbusTcpClientConfig, ModbusTcpServerConfig, ModbusRtuConfig, ModbusMaster, MeterSlaveConfig,
  InverterConfig, MeterBody, fronius, ebz, EasyMeterConfig, MeterConfig, Devices, Owner, Section,
  inverters, meters, meter_slaves,
}

unfoldable pub bus_key_tcp : ModbusTcpClientConfig → String
bus_key_tcp t = append t.host (append ":" (to_string t.port))

unfoldable pub bus_key_rtu : ModbusRtuConfig → String
bus_key_rtu r = r.device

pub record DeviceRef : Type 0 where
  pub owner : Owner
  pub tcp : Option ModbusTcpClientConfig
  pub rtu : Option ModbusRtuConfig
  pub slave_id : ℤ

-- `d.rtu ? busKeyRtu(*d.rtu) : busKeyTcp(*d.tcp)`; `none` where `d.tcp` is read and is null.
abbrev pub key_of : Option ModbusRtuConfig → Option ModbusTcpClientConfig → Option String
key_of (some r) _ = some (bus_key_rtu r)
key_of none (some t) = some (bus_key_tcp t)
key_of none none = none

unfoldable pub bus_key : DeviceRef → Option String
bus_key d = key_of d.rtu d.tcp

abbrev pub owner_of : Section → ℕ → String → Owner
owner_of s i n = record { section = s; index = i; name = n }

abbrev pub ref_of : Owner → ModbusMaster → DeviceRef
ref_of o m = record { owner = o; tcp = m.tcp; rtu = m.rtu; slave_id = m.slave_id }

module _ {F : Type 0} where
  abbrev pub as_fronius : MeterBody F → Option ModbusMaster
  as_fronius (fronius m) = some m
  as_fronius (ebz e) = none

  abbrev pub as_easy_meter : MeterBody F → Option (EasyMeterConfig F)
  as_easy_meter (fronius m) = none
  as_easy_meter (ebz e) = some e

  unfoldable pub meter_refs : ℕ → List (MeterConfig F) → List DeviceRef
  meter_refs i [] = []
  meter_refs i (c ∷ cs) =
      let rest = meter_refs (i + 1) cs in
      elim (as_fronius c.body) [ none ↦ rest | some m ↦ ref_of (owner_of meters i c.name) m ∷ rest ]

abbrev pub Line : Type 0
Line = Owner × ModbusRtuConfig

unfoldable pub inverter_refs : ℕ → List InverterConfig → List DeviceRef
inverter_refs i [] = []
inverter_refs i (c ∷ cs) = ref_of (owner_of inverters i c.name) c.master ∷ inverter_refs (i + 1) cs

-- The masters with a serial line: those that `if (!d.rtu) continue;` leaves.
unfoldable pub master_lines : List DeviceRef → List Line
master_lines [] = []
master_lines (d ∷ ds) =
    let rest = master_lines ds in elim d.rtu [ none ↦ rest | some r ↦ (d.owner, r) ∷ rest ]

abbrev pub slave_tcp : Option MeterSlaveConfig → Option ModbusTcpServerConfig
slave_tcp none = none
slave_tcp (some s) = s.tcp

abbrev pub slave_rtu : Option MeterSlaveConfig → Option ModbusRtuConfig
slave_rtu none = none
slave_rtu (some s) = s.rtu

module _ {F : Type 0} where
  unfoldable pub masters : Devices F → List DeviceRef
  masters cfg = inverter_refs 0 cfg.inverters ++ meter_refs 0 cfg.meters

  -- `if (!m.slave || !m.slave->tcp) continue;`
  unfoldable pub slave_listens : ℕ → List (MeterConfig F) → List (Owner × ModbusTcpServerConfig)
  slave_listens i [] = []
  slave_listens i (m ∷ ms) =
      let rest = slave_listens (i + 1) ms in
      elim (slave_tcp m.slave) [ none ↦ rest | some t ↦ (owner_of meter_slaves i m.name, t) ∷ rest ]

  -- `if (!m.slave || !m.slave->rtu) continue;`
  unfoldable pub slave_lines : ℕ → List (MeterConfig F) → List Line
  slave_lines i [] = []
  slave_lines i (m ∷ ms) =
      let rest = slave_lines (i + 1) ms in
      elim (slave_rtu m.slave) [ none ↦ rest | some r ↦ (owner_of meter_slaves i m.name, r) ∷ rest ]
