-- ===== src/Config/Buses/Unique.antt =====
-- A valid configuration has its bus registry, and unit ids differ on every bus.
use fronius_bridge.Prelude.{
  ℕ, ◌+◌, String, true, none, some, List, [], ◌∷◌, ◌++◌, ◌==◌, text_eq, int_eq, option_eq,
  option_beq_iff, arith, ◌≡◌, ◌≢◌, refl, sym, ok, ◌>>=◌, inl, inr, Option-cases, All, Distinct,
  All-append, eq_ok->>=, Bool-cases,
}
use fronius_bridge.Config.Types.{
  ModbusMaster, InverterConfig, MeterBody, fronius, ebz, MeterConfig, Devices, Owner, inverters,
  meters,
}
use fronius_bridge.Config.Validate.Refs.{
  DeviceRef, bus_key, bus_key_tcp, bus_key_rtu, owner_of, ref_of, as_fronius, inverter_refs,
  meter_refs, masters,
}
use fronius_bridge.Config.Validate.Checks.{unit_key, validate_config}
use fronius_bridge.Config.Validate.Exact.{validate_config-IsValid}
use fronius_bridge.Config.Buses.Derive.{
  Transport, tcp_transport, rtu_transport, parity_to_char, BusInfo, BusEntry, master_bus_entry,
  meter_bus_entry, fold_bus, fold_entry, fold_meters, fold_inverters, derive_buses,
}
use fronius_bridge.Config.Buses.Fold.{refs_on, members_at, derive_buses-members}

abbrev master_entry_value : Owner → ModbusMaster → String → Transport → BusEntry
master_entry_value o m k t = record {
  key = k;
  config = record {
    transport = t;
    reconnect_delay = m.reconnect_delay.min;
    reconnect_delay_max = m.reconnect_delay.max;
    exponential = m.reconnect_delay.exponential;
  };
  member = record { name = o.name; slave_id = m.slave_id };
}

master_entry_ok :
    (o : Owner) (m : ModbusMaster)
    → bus_key (ref_of o m) ≢ none
    → (e : BusEntry) × (master_bus_entry o.name m ≡ ok e)
unfolding master_bus_entry bus_key
master_entry_ok o m h = elim (Option-cases m.rtu) [
  | inl r ↦ elim (Option-cases m.tcp) [
    | inl t ↦ absurd (h (ground arith))
    | inr (t, f) ↦
        (master_entry_value o m (bus_key_tcp t) (tcp_transport t.host t.port), ground arith)
  ]
  | inr (r, g) ↦ elim (Option-cases m.tcp) [
    | inl t ↦ (
      master_entry_value o m (bus_key_rtu r)
          (rtu_transport r.device r.baud r.data_bits r.stop_bits (parity_to_char r.parity)),
      ground arith,
    )
    | inr (t, f) ↦
        (master_entry_value o m (bus_key_rtu r) (tcp_transport t.host t.port), ground arith)
  ]
]

module _ {F : Type 0} where
  fold_meters-ok :
      (buses : List (String × BusInfo)) (i : ℕ) (ms : List (MeterConfig F))
      → All (λ d. bus_key d ≢ none) (meter_refs i ms)
      → (r : List (String × BusInfo)) × (fold_meters buses ms ≡ ok r)
  unfolding fold_meters meter_refs meter_bus_entry
  fold_meters-ok buses i [] h = (buses, refl)
  fold_meters-ok buses i (c ∷ cs) h = meter_ok c.name c.body h (λ b. fold_meters-ok b (i + 1) cs)
    where
      meter_ok :
          (name : String) (body : MeterBody F)
          → All
              (λ d. bus_key d ≢ none)
              (elim (as_fronius body) [
                | none ↦ meter_refs (i + 1) cs
                | some m ↦ ref_of (owner_of meters i name) m ∷ meter_refs (i + 1) cs
              ])
          → ((b : List (String × BusInfo))
              → All (λ d. bus_key d ≢ none) (meter_refs (i + 1) cs)
              → (r : List (String × BusInfo)) × (fold_meters b cs ≡ ok r))
          → (r : List (String × BusInfo)) × ((meter_bus_entry {F = F} name body >>= λ e.
                fold_meters (fold_entry buses e) cs)
              ≡ ok r)
      meter_ok name (ebz x) a ih = ih buses a
      meter_ok name (fronius m) a ih =
          let (e, f) = master_entry_ok (owner_of meters i name) m a.0 in
          let (r, g) = ih (fold_bus buses e) a.1 in
          (
            r,
            eq_ok->>= (meter_bus_entry {F = F} name (fronius m)) _
                (eq_ok->>= (master_bus_entry name m) _ f refl) g,
          )

fold_inverters-ok :
    (buses : List (String × BusInfo)) (i : ℕ) (is : List InverterConfig)
    → All (λ d. bus_key d ≢ none) (inverter_refs i is)
    → (r : List (String × BusInfo)) × (fold_inverters buses is ≡ ok r)
unfolding fold_inverters inverter_refs
fold_inverters-ok buses i [] h = (buses, refl)
fold_inverters-ok buses i (c ∷ cs) (h, hs) =
    let (e, f) = master_entry_ok (owner_of inverters i c.name) c.master h in
    let (r, g) = fold_inverters-ok (fold_bus buses e) (i + 1) cs hs in
    (r, eq_ok->>= (master_bus_entry c.name c.master) _ f g)

-- Distinct keys, whichever of two lists comes first.
module _ {ℓ κ} {A : Type ℓ} {K : Type κ} (key : A → K) where
  abbrev Differ : List A → A → Type κ
  Differ xs y = All (λ x. key x ≢ key y) xs

  Differ-cons :
      (x : A) (xs ys : List A)
      → All (λ y. key y ≢ key x) ys
      → All (Differ xs) ys
      → All (Differ (x ∷ xs)) ys
  Differ-cons x xs [] h k = tt
  Differ-cons x xs (y ∷ ys) (h, hs) (k, ks) = (((λ e. h (sym e)), k), Differ-cons x xs ys hs ks)

  Differ-none : (ys : List A) → All (Differ []) ys
  Differ-none [] = tt
  Differ-none (y ∷ ys) = (tt, Differ-none ys)

  All-split : (P : A → Type κ) (xs ys : List A) → All P (xs ++ ys) → All P xs × All P ys
  All-split P [] ys h = (tt, h)
  All-split P (x ∷ xs) ys (h, hs) = let (a, b) = All-split P xs ys hs in ((h, a), b)

  Distinct-split :
      (xs ys : List A)
      → Distinct key (xs ++ ys)
      → Distinct key xs × Distinct key ys × All (Differ xs) ys
  Distinct-split [] ys h = (tt, h, Differ-none ys)
  Distinct-split (x ∷ xs) ys (h, hs) =
      let (a, b) = All-split (λ y. key y ≢ key x) xs ys h in
      let (c, d, e) = Distinct-split xs ys hs in ((a, c), d, Differ-cons x xs ys b e)

  Distinct-join :
      (ys xs : List A)
      → Distinct key ys
      → Distinct key xs
      → All (Differ xs) ys
      → Distinct key (ys ++ xs)
  Distinct-join [] xs h k d = k
  Distinct-join (y ∷ ys) xs (h, hs) k (d, ds) =
      (All-append (λ z. key z ≢ key y) ys xs h d, Distinct-join ys xs hs k ds)

  Distinct-flip : (xs ys : List A) → Distinct key (xs ++ ys) → Distinct key (ys ++ xs)
  Distinct-flip xs ys h = let (a, b, c) = Distinct-split xs ys h in Distinct-join ys xs b a c

refs_on-append :
    (k : String) (xs ys : List DeviceRef) → refs_on k (xs ++ ys) ≡ refs_on k xs ++ refs_on k ys
refs_on-append k [] ys = refl
refs_on-append k (d ∷ ds) ys = ground (arith, refs_on-append k ds ys)

on_key : (d : DeviceRef) (k : String) → (bus_key d == some k) ≡ true → bus_key d ≡ some k
on_key d k h = (option_beq_iff text_eq (bus_key d) (some k)).0 h

other_units :
    (k : String) (d : DeviceRef) (ds : List DeviceRef)
    → bus_key d ≡ some k
    → All (λ e. unit_key e ≢ unit_key d) ds
    → All (λ m. m.slave_id ≢ d.slave_id) (refs_on k ds)
unfolding unit_key
other_units k d [] f h = tt
other_units k d (e ∷ ds) f (h, hs) = elim (Bool-cases (bus_key e == some k)) [
  | inl t ↦ rw t ((λ s. h (cc (on_key e k t, f, s))), other_units k d ds f hs)
  | inr t ↦ rw t (other_units k d ds f hs)
]

Distinct-refs_on :
    (k : String) (ds : List DeviceRef)
    → Distinct unit_key ds
    → Distinct (λ m. m.slave_id) (refs_on k ds)
Distinct-refs_on k [] h = tt
Distinct-refs_on k (d ∷ ds) (h, hs) = elim (Bool-cases (bus_key d == some k)) [
  | inl t ↦ rw t (other_units k d ds (on_key d k t) h, Distinct-refs_on k ds hs)
  | inr t ↦ rw t (Distinct-refs_on k ds hs)
]

-- A configuration that passes the checks has its bus registry: no device lacks a transport, and the
-- devices that the registry lists on one bus all have different unit ids.
pub derive_buses_ok :
    {F : Type 0} (cfg : Devices F)
    → validate_config cfg ≡ ok tt
    → (buses : List (String × BusInfo)) × (derive_buses cfg ≡ ok buses)
      × ((k : String) → Distinct (λ m. m.slave_id) (members_at k buses))
unfolding derive_buses masters
derive_buses_ok cfg h =
    let v = validate_config-IsValid cfg h in
    let is = inverter_refs 0 cfg.inverters in
    let ms = meter_refs 0 cfg.meters in
    let (a, b) = All-split (bus_key) (λ d. bus_key d ≢ none) is ms v.transports in
    let (r, e) = fold_meters-ok [] 0 cfg.meters b in
    let (s, f) = fold_inverters-ok r 0 cfg.inverters a in
    let done = eq_ok->>= (fold_meters [] cfg.meters) _ e f in
    (
      s,
      done,
      λ k.
          rw (derive_buses-members cfg done k, ← refs_on-append k ms is)
            (Distinct-refs_on k (ms ++ is) (Distinct-flip unit_key is ms v.unit_ids)),
    )
