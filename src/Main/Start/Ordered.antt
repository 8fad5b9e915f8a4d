-- ===== src/Main/Start/Ordered.antt =====
-- That root is given up between the slaves and everything else, and how a start that fails ends.
use fronius_bridge.Prelude.{
  ◌≡◌, refl, ◌∙◌, String, Bool, true, false, Option, none, some, List, [], ◌∷◌, ◌++◌, map, ◌&&◌,
  not, ◌==◌, text_eq, has_value, find, if-elim, All, All-append, arith,
}
use fronius_bridge.Config.Types.{
  MeterConfig, InverterConfig, MeterBody, fronius, ebz, PostgresConfig,
}
use fronius_bridge.Config.Buses.Derive.{BusInfo}
use fronius_bridge.Config.Validate.Refs.{key_of}
use fronius_bridge.Config.Load.{AppConfig}
use fronius_bridge.Main.Start.{
  Options, Action, start_slave, drop, start_mqtt, start_postgres, add_bus, add_bus_log, connect_bus,
  start_fronius, start_inverter, start_easy_meter, missing_bus, start_slaves, plan, start,
  failure_of, carry_on, after_drop, start_meter, start_master, start_inverter_master, on_bus,
  start_consumer, keys, migrates,
}

-- Whether root is given up exactly once, after each slave has its port and before anything else is made.
abbrev pub guards : (dropped : Bool) → List Action → Bool
guards dropped [] = true
guards dropped (start_slave name ∷ more) = not dropped && guards dropped more
guards dropped (drop user group ∷ more) = not dropped && guards true more
guards dropped (a ∷ more) = dropped && guards dropped more

abbrev is_later : Action → Bool
is_later (start_slave name) = false
is_later (drop user group) = false
is_later _ = true

abbrev Later : Action → Type 0
Later a = is_later a ≡ true

guards-Later :
    (a : Action) (more : List Action) → Later a → guards true (a ∷ more) ≡ guards true more
guards-Later (start_slave n) more h = absurd (ground arith)
guards-Later (drop u g) more h = absurd (ground arith)
guards-Later start_mqtt more h = refl
guards-Later (start_postgres m) more h = refl
guards-Later (add_bus k) more h = refl
guards-Later (add_bus_log k) more h = refl
guards-Later (connect_bus k) more h = refl
guards-Later (start_fronius n k) more h = refl
guards-Later (start_inverter n k) more h = refl
guards-Later (start_easy_meter n) more h = refl
guards-Later (missing_bus n) more h = refl

on_bus-Later :
    (attach : String → Action) (name : String) (buses : List (String × BusInfo))
    (key : Option String)
    → ((k : String) → Later (attach k))
    → Later (on_bus attach name buses key)
on_bus-Later attach name buses none h = refl
on_bus-Later attach name buses (some key) h =
    if-elim Later (has_value (find key buses)) (h key) refl

inverters-Later :
    (buses : List (String × BusInfo)) (is : List InverterConfig)
    → All Later (map (start_inverter_master buses) is)
inverters-Later buses [] = tt
inverters-Later buses (i ∷ is) = (
  on_bus-Later (start_inverter i.name) i.name buses (key_of i.master.rtu i.master.tcp) (λ k. refl),
  inverters-Later buses is,
)

module _ {F : Type 0} where
  meters-Later :
      (buses : List (String × BusInfo)) (ms : List (MeterConfig F))
      → All Later (map (start_meter buses) ms)
  meters-Later buses [] = tt
  meters-Later buses (m ∷ ms) = (body-Later m.body, meters-Later buses ms)
    where
      body-Later : (b : MeterBody F) → Later (start_master buses m.name b)
      body-Later (fronius x) =
          on_bus-Later (start_fronius m.name) m.name buses (key_of x.rtu x.tcp) (λ k. refl)
      body-Later (ebz e) = refl

  -- What holds of each action that the part after the drop is made of holds of all of it.
  pub after_drop-All :
      (P : Action → Type 0) (o : Options) (cfg : AppConfig F)
      → P start_mqtt
      → ((m : Bool) → P (start_postgres m))
      → ((k : String) → P (add_bus k) × P (add_bus_log k) × P (connect_bus k))
      → All P (map (start_meter cfg.buses) cfg.meters)
      → All P (map (start_inverter_master cfg.buses) cfg.inverters)
      → All P (after_drop o cfg)
  after_drop-All P o cfg mqtt postgres bus meters inverters =
      let ks = keys cfg.buses in
      let ms = map (start_meter cfg.buses) cfg.meters in
      let is = map (start_inverter_master cfg.buses) cfg.inverters in
      let connected = All-append P is _ inverters (All-each connect_bus (λ k. (bus k).2) ks) in
      let wired = All-append P ms _ meters connected in
      let logged =
        All-append P (map add_bus_log ks) _ (All-each add_bus_log (λ k. (bus k).1) ks) wired in
      let made = All-append P (map add_bus ks) _ (All-each add_bus (λ k. (bus k).0) ks) logged in
      (mqtt, All-append P (start_consumer o cfg.postgres) _ (consumer cfg.postgres) made)
    where
      All-each :
          (f : String → Action) → ((k : String) → P (f k)) → (ks : List String) → All P (map f ks)
      All-each f h [] = tt
      All-each f h (k ∷ ks) = (h k, All-each f h ks)

      consumer : (p : Option PostgresConfig) → All P (start_consumer o p)
      consumer none = tt
      consumer (some p) = (postgres (migrates o p), tt)

  after_drop-Later : (o : Options) (cfg : AppConfig F) → All Later (after_drop o cfg)
  after_drop-Later o cfg =
      after_drop-All Later o cfg refl (λ m. refl) (λ k. (refl, refl, refl))
        (meters-Later cfg.buses cfg.meters) (inverters-Later cfg.buses cfg.inverters)

carry_on-elim :
    (P : List Action → Type 0) (o : Option String) (a : Action) (rest : List Action × Option String)
    → P []
    → P (a ∷ rest.0)
    → P (carry_on o a rest).0
carry_on-elim P (some e) a rest p q = p
carry_on-elim P none a rest p q = q

module _ (throws : Action → Option String) (out_of_range : String) where
  start-guards :
      (later : List Action)
      → All Later later
      → guards true (start throws out_of_range later).0 ≡ true
  unfolding start
  start-guards [] h = refl
  start-guards (a ∷ more) (h, hs) =
      carry_on-elim (λ l. guards true l ≡ true) (failure_of throws out_of_range a) a
        (start throws out_of_range more) refl (guards-Later a _ h ∙ start-guards more hs)

  slaves-guard :
      {F : Type 0} (ms : List (MeterConfig F)) (user group : String) (later : List Action)
      → All Later later
      → guards false (start throws out_of_range (start_slaves ms ++ drop user group ∷ later)).0
        ≡ true
  unfolding start_slaves start
  slaves-guard [] user group later h =
      carry_on-elim (λ l. guards false l ≡ true) (throws (drop user group)) (drop user group)
        (start throws out_of_range later) refl (start-guards later h)
  slaves-guard (m ∷ ms) user group later h =
      let rest = slaves-guard ms user group later h in
      if-elim
        (λ l. guards false (start throws out_of_range (l ++ drop user group ∷ later)).0 ≡ true)
        (has_value m.slave)
        (carry_on-elim (λ l. guards false l ≡ true) (throws (start_slave m.name))
          (start_slave m.name)
          (start throws out_of_range (start_slaves ms ++ drop user group ∷ later)) refl rest)
        rest

  -- When root starts the program for another user, then however far the start gets, root has been given up
  -- at most once, no slave takes its port after that, and neither the broker's client nor the database's,
  -- no bus and no master is made, and nothing is connected, unless root has been given up.
  pub start-guarded :
      {F : Type 0} (o : Options) (cfg : AppConfig F)
      → (o.run_user == "") ≡ false
      → guards false (start throws out_of_range (plan true o cfg)).0 ≡ true
  unfolding plan
  start-guarded o cfg h =
      rw h
        (slaves-guard cfg.meters o.run_user o.run_group (after_drop o cfg) (after_drop-Later o cfg))
