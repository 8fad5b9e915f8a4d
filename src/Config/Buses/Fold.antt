-- ===== src/Config/Buses/Fold.antt =====
-- Which devices the bus registry lists under a key.
use fronius_bridge.Prelude.{
  ℕ, ◌+◌, String, Option, none, some, List, [], ◌∷◌, ◌++◌, ◌==◌, text_eq, int_eq, option_eq, arith,
  ◌≡◌, refl, ◌∙◌, ap, if◌then◌else◌, ok, find, >>=-eq-ok,
}
use mathlib.Core.List.{append-nil, append_assoc}
use fronius_bridge.Config.Types.{
  ModbusMaster, InverterConfig, MeterBody, fronius, ebz, MeterConfig, Devices, Owner, inverters,
  meters,
}
use fronius_bridge.Config.Validate.Refs.{
  DeviceRef, bus_key, owner_of, ref_of, as_fronius, inverter_refs, meter_refs,
}
use fronius_bridge.Config.Buses.Derive.{
  BusMember, BusInfo, BusEntry, master_bus_entry, meter_bus_entry, fold_bus, fold_entry,
  fold_meters, fold_inverters, derive_buses,
}

abbrev pub member_of : DeviceRef → BusMember
member_of d = record { name = d.owner.name; slave_id = d.slave_id }

-- The devices of the list that are on bus `k`.
abbrev pub refs_on : String → List DeviceRef → List BusMember
refs_on k [] = []
refs_on k (d ∷ ds) =
    let rest = refs_on k ds in if bus_key d == some k then member_of d ∷ rest else rest

abbrev pub members_of : Option BusInfo → List BusMember
members_of none = []
members_of (some b) = b.members

abbrev pub members_at : String → List (String × BusInfo) → List BusMember
members_at k buses = members_of (find k buses)

members_at-fold_bus :
    (k : String) (buses : List (String × BusInfo)) (e : BusEntry)
    → members_at k (fold_bus buses e)
      ≡ members_at k buses ++ (if e.key == k then e.member ∷ [] else [])
unfolding fold_bus find
members_at-fold_bus k [] e = ground (arith, text_eq.beq_iff k e.key, text_eq.beq_iff e.key k)
members_at-fold_bus k ((j, b) ∷ bs) e = ground (
  arith,
  members_at-fold_bus k bs e,
  text_eq.beq_iff k e.key,
  text_eq.beq_iff e.key k,
  text_eq.beq_iff e.key j,
  text_eq.beq_iff k j,
  append-nil b.members,
  append-nil (members_at k bs),
)

-- The entry of a master has the key and the member of its reference.
pub master_entry :
    (o : Owner) (m : ModbusMaster) {e : BusEntry}
    → master_bus_entry o.name m ≡ ok e
    → (bus_key (ref_of o m) ≡ some e.key) × (e.member ≡ member_of (ref_of o m))
unfolding master_bus_entry bus_key
master_entry o m h = ground arith

-- One more device on its bus.
members_at-entry :
    (k : String) (buses : List (String × BusInfo)) (d : DeviceRef) (e : BusEntry)
    (ds : List DeviceRef)
    → bus_key d ≡ some e.key
    → e.member ≡ member_of d
    → members_at k (fold_bus buses e) ++ refs_on k ds ≡ members_at k buses ++ refs_on k (d ∷ ds)
members_at-entry k buses d e ds f g =
    rw (members_at-fold_bus k buses e, f, g, append_assoc) (ground arith)

fold_inverters-members :
    (k : String) (buses : List (String × BusInfo)) (i : ℕ) (is : List InverterConfig)
    {r : List (String × BusInfo)}
    → fold_inverters buses is ≡ ok r
    → members_at k r ≡ members_at k buses ++ refs_on k (inverter_refs i is)
unfolding fold_inverters inverter_refs
fold_inverters-members k buses i [] h = ground (arith, append-nil (members_at k buses))
fold_inverters-members k buses i (c ∷ cs) h =
    let o = owner_of inverters i c.name in
    let (e, f, g) = >>=-eq-ok (master_bus_entry c.name c.master) _ h in
    let (a, b) = master_entry o c.master f in
    fold_inverters-members k (fold_bus buses e) (i + 1) cs g
    ∙ members_at-entry k buses (ref_of o c.master) e (inverter_refs (i + 1) cs) a b

module _ {F : Type 0} where
  meter_entry :
      (k : String) (buses : List (String × BusInfo)) (o : Owner) (b : MeterBody F)
      (ds : List DeviceRef) {e : Option BusEntry}
      → meter_bus_entry o.name b ≡ ok e
      → members_at k (fold_entry buses e) ++ refs_on k ds
        ≡ members_at k buses
          ++ refs_on k (elim (as_fronius b) [ none ↦ ds | some m ↦ ref_of o m ∷ ds ])
  unfolding meter_bus_entry
  meter_entry k buses o (ebz x) ds {e = none} h = refl
  meter_entry k buses o (ebz x) ds {e = some e} h = cc
  meter_entry k buses o (fronius m) ds {e = none} h =
      let (e, f, g) = >>=-eq-ok (master_bus_entry o.name m) _ h in cc
  meter_entry k buses o (fronius m) ds {e = some x} h =
      let (e, f, g) = >>=-eq-ok (master_bus_entry o.name m) _ h in
      let (a, b) = master_entry o m f in
      let same : x ≡ e = ground arith in rw same (members_at-entry k buses (ref_of o m) e ds a b)

  fold_meters-members :
      (k : String) (buses : List (String × BusInfo)) (i : ℕ) (ms : List (MeterConfig F))
      {r : List (String × BusInfo)}
      → fold_meters buses ms ≡ ok r
      → members_at k r ≡ members_at k buses ++ refs_on k (meter_refs i ms)
  unfolding fold_meters meter_refs
  fold_meters-members k buses i [] h = ground (arith, append-nil (members_at k buses))
  fold_meters-members k buses i (c ∷ cs) h =
      let (e, f, g) = >>=-eq-ok (meter_bus_entry c.name c.body) _ h in
      fold_meters-members k (fold_entry buses e) (i + 1) cs g
      ∙ meter_entry k buses (owner_of meters i c.name) c.body (meter_refs (i + 1) cs) f

-- The devices of a section list that are on bus `k`: the meters first, as they are folded.
abbrev pub devices_on : {F : Type 0} → String → Devices F → List BusMember
devices_on k cfg = refs_on k (meter_refs 0 cfg.meters) ++ refs_on k (inverter_refs 0 cfg.inverters)

-- If the registry is derived, then under every key it lists exactly the Modbus meters and inverters
-- whose transport has that key, in their order, meters first.
pub derive_buses-members :
    {F : Type 0} (cfg : Devices F) {buses : List (String × BusInfo)}
    → derive_buses cfg ≡ ok buses
    → (k : String) → members_at k buses ≡ devices_on k cfg
unfolding derive_buses find
derive_buses-members cfg h k =
    let (b, f, g) = >>=-eq-ok (fold_meters [] cfg.meters) _ h in
    fold_inverters-members k b 0 cfg.inverters g
    ∙ ap (λ l. l ++ refs_on k (inverter_refs 0 cfg.inverters))
        (fold_meters-members k [] 0 cfg.meters f)
