-- ===== src/Main/Start/Completes.antt =====
-- That a start from a loaded configuration finds every bus.
use fronius_bridge.Prelude.{
  ℕ, ◌+◌, ◌≡◌, ◌≢◌, refl, ◌∙◌, String, Bool, true, false, Option, none, some, List, [], ◌∷◌, ◌++◌,
  map, has_value, if-elim, Option-cases, inl, inr, ok, All, All-append, ◌==◌, ◌&&◌, not, text_eq,
  arith,
}
use fronius_bridge.Doubles.{Doubles}
use fronius_bridge.Config.Types.{
  MeterConfig, InverterConfig, MeterBody, fronius, ebz, ModbusMaster, inverters, meters, Owner,
  ModbusTcpClientConfig, ModbusRtuConfig,
}
use fronius_bridge.Config.Yaml.{Yaml}
use fronius_bridge.Config.Parse.{one_of}
use fronius_bridge.Config.Parse.Ranges.{IsInRange}
use fronius_bridge.Config.Buses.Derive.{BusInfo}
use fronius_bridge.Config.Buses.Lookup.{HasBus}
use fronius_bridge.Config.Validate.Refs.{
  DeviceRef, key_of, bus_key, ref_of, owner_of, as_fronius, inverter_refs, meter_refs, masters,
}
use fronius_bridge.Config.Load.{AppConfig, load_config}
use fronius_bridge.Config.Load.Sound.{IsInverter, IsBody, IsMeter, IsLoaded, load_config-IsLoaded}
use fronius_bridge.Main.Start.Ordered.{after_drop-All}
use fronius_bridge.Main.Start.{
  Options, Action, start_slave, drop, start_mqtt, start_postgres, add_bus, add_bus_log, connect_bus,
  start_fronius, start_inverter, start_easy_meter, missing_bus, start_slaves, plan, start,
  failure_of, drop_if, after_drop, start_meter, start_master, start_inverter_master, on_bus,
}

-- The action of a device whose bus is there.
abbrev is_found : Action → Bool
is_found (missing_bus name) = false
is_found _ = true

abbrev Found : Action → Type 0
Found a = is_found a ≡ true

has_key :
    (r : Option ModbusRtuConfig) (t : Option ModbusTcpClientConfig)
    → one_of (has_value t) (has_value r) ≡ true
    → key_of r t ≢ none
has_key (some r) t h = λ e. cc
has_key none (some t) h = λ e. cc
has_key none none h = absurd (ground arith)

-- A device with a transport whose key is in the registry.
on_bus-Found :
    (attach : String → Action) (name : String) (buses : List (String × BusInfo)) (o : Owner)
    (m : ModbusMaster)
    → ((k : String) → Found (attach k))
    → IsInRange m
    → HasBus buses (ref_of o m)
    → Found (on_bus attach name buses (key_of m.rtu m.tcp))
unfolding bus_key
on_bus-Found attach name buses o m f range has = elim (Option-cases (key_of m.rtu m.tcp)) [
  | inl e ↦ absurd (has_key m.rtu m.tcp range.one_transport e)
  | inr (k, e) ↦ let (b, l) = has k e in rw (e, l) (f k)
]

inverters-Found :
    (buses : List (String × BusInfo)) (i : ℕ) (is : List InverterConfig) (others : List DeviceRef)
    → All IsInverter is
    → All (HasBus buses) (inverter_refs i is ++ others)
    → All Found (map (start_inverter_master buses) is) × All (HasBus buses) others
unfolding inverter_refs
inverters-Found buses i [] others good has = (tt, has)
inverters-Found buses i (c ∷ cs) others ((_, range), good) (h, has) =
    let (a, b) = inverters-Found buses (i + 1) cs others good has in
    (
      (
        on_bus-Found (start_inverter c.name) c.name buses (owner_of inverters i c.name) c.master
            (λ k. refl) range h,
        a,
      ),
      b,
    )

module _ {F : Type 0} where
  slaves-Found : (ms : List (MeterConfig F)) → All Found (start_slaves ms)
  unfolding start_slaves
  slaves-Found [] = tt
  slaves-Found (m ∷ ms) =
      if-elim (All Found) (has_value m.slave) (refl, slaves-Found ms) (slaves-Found ms)

module _ {F : Type 0} (dbl : Doubles F) where
  meter-Found :
      (buses : List (String × BusInfo)) (i : ℕ) (name : String) (body : MeterBody F)
      (others : List DeviceRef)
      → IsBody dbl body
      → All (HasBus buses) (elim (as_fronius body) [
        | none ↦ others
        | some m ↦ ref_of (owner_of meters i name) m ∷ others
      ])
      → Found (start_master buses name body) × All (HasBus buses) others
  meter-Found buses i name (ebz e) others good has = (refl, has)
  meter-Found buses i name (fronius m) others good (h, has) = (
    on_bus-Found (start_fronius name) name buses (owner_of meters i name) m (λ k. refl) good h,
    has,
  )

  meters-Found :
      (buses : List (String × BusInfo)) (i : ℕ) (ms : List (MeterConfig F))
      → All (IsMeter dbl) ms
      → All (HasBus buses) (meter_refs i ms)
      → All Found (map (start_meter buses) ms)
  unfolding meter_refs
  meters-Found buses i [] good has = tt
  meters-Found buses i (c ∷ cs) (g, good) has =
      let (a, b) = meter-Found buses i c.name c.body (meter_refs (i + 1) cs) g.body has in
      (a, meters-Found buses (i + 1) cs good b)

  plan-Found :
      (is_root : Bool) (o : Options) (app : AppConfig F)
      → IsLoaded dbl app
      → All Found (plan is_root o app)
  unfolding plan masters
  plan-Found is_root o app loaded =
      let (is, others) =
        inverters-Found app.buses 0 app.inverters (meter_refs 0 app.meters) loaded.inverters
          loaded.found in
      let rest =
        after_drop-All Found o app refl (λ m. refl) (λ k. (refl, refl, refl))
          (meters-Found app.buses 0 app.meters loaded.meters others) is in
      All-append Found (start_slaves app.meters) _ (slaves-Found app.meters) (
        All-append Found (drop_if is_root o) (after_drop o app)
          (if-elim (All Found) (not (o.run_user == "") && is_root) (refl, tt) tt) rest)

module _ (throws : Action → Option String) (out_of_range : String) where
  failure_of-Found : (a : Action) → Found a → failure_of throws out_of_range a ≡ throws a
  failure_of-Found (missing_bus name) h = absurd (ground arith)
  failure_of-Found (start_slave n) h = refl
  failure_of-Found (drop u g) h = refl
  failure_of-Found start_mqtt h = refl
  failure_of-Found (start_postgres m) h = refl
  failure_of-Found (add_bus k) h = refl
  failure_of-Found (add_bus_log k) h = refl
  failure_of-Found (connect_bus k) h = refl
  failure_of-Found (start_fronius n k) h = refl
  failure_of-Found (start_inverter n k) h = refl
  failure_of-Found (start_easy_meter n) h = refl

  start-Found :
      (actions : List Action)
      → All Found actions
      → ((a : Action) → throws a ≡ none)
      → start throws out_of_range actions ≡ (actions, none)
  unfolding start
  start-Found [] h calm = refl
  start-Found (a ∷ more) (h, hs) calm =
      rw (failure_of-Found a h ∙ calm a, start-Found more hs calm) refl

  -- A start from a configuration that `loadConfig` returned never misses a bus: if no constructor and no call
  -- throws, everything that was planned is done, and there is no exception.
  pub start_complete :
      {N F : Type 0} (yaml : Yaml N F) (dbl : Doubles F) (root : N) (app : AppConfig F)
      (is_root : Bool) (o : Options)
      → load_config yaml dbl root ≡ ok app
      → ((a : Action) → throws a ≡ none)
      → start throws out_of_range (plan is_root o app) ≡ (plan is_root o app, none)
  start_complete yaml dbl root app is_root o h calm =
      start-Found (plan is_root o app)
        (plan-Found dbl is_root o app (load_config-IsLoaded yaml dbl root app h)) calm
