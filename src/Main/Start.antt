-- ===== src/Main/Start.antt =====
-- src/main.cpp from the options on: what is constructed, in which order, and how the program ends. Whether a
-- constructor or a call throws is a parameter, as is what the exception of `buses.at` says.
pub mod Completes
pub mod Fails
pub mod Ordered
use fronius_bridge.Prelude.{
  ℕ, String, Bool, true, false, Option, none, some, List, [], ◌∷◌, ◌++◌, map, ◌&&◌, not, ◌==◌,
  text_eq, find, if◌then◌else◌, Result, ok, err, has_value,
}
use fronius_bridge.Config.Types.{
  MeterConfig, InverterConfig, MeterBody, fronius, ebz, ModbusMaster, PostgresConfig,
}
use fronius_bridge.Config.Buses.Derive.{BusInfo}
use fronius_bridge.Config.Validate.Refs.{key_of}
use fronius_bridge.Config.Load.{AppConfig}
use fronius_bridge.Shutdown.{
  Occurrence, gave_up, occur_all, fresh_handler, Exit, exit_of, success, failure,
}

pub record Options : Type 0 where
  pub run_user : String
  pub run_group : String
  pub no_migrate : Bool

pub data Action : Type 0 where
  start_slave : (meter : String) → Action
  drop : (user group : String) → Action
  start_mqtt : Action
  start_postgres : (auto_migrate : Bool) → Action
  add_bus add_bus_log connect_bus : (key : String) → Action
  start_fronius start_inverter : (name key : String) → Action
  start_easy_meter : (name : String) → Action
  -- `buses.at`, where there is no such bus, or `*tcp`, where there is none
  missing_bus : (name : String) → Action

-- `if (cfg.postgres && noMigrate) cfg.postgres->autoMigrate = false;`
abbrev pub migrates : Options → PostgresConfig → Bool
migrates o p = p.auto_migrate && not o.no_migrate

abbrev pub start_consumer : Options → Option PostgresConfig → List Action
start_consumer o none = []
start_consumer o (some p) = start_postgres (migrates o p) ∷ []

abbrev pub drop_if : (is_root : Bool) → Options → List Action
drop_if is_root o =
    if not (o.run_user == "") && is_root then drop o.run_user o.run_group ∷ [] else []

-- A device on a bus, if the bus is found.
abbrev pub on_bus :
    (String → Action) → (name : String) → List (String × BusInfo) → Option String → Action
on_bus attach name buses none = missing_bus name
on_bus attach name buses (some key) =
    if has_value (find key buses) then attach key else missing_bus name

abbrev pub start_inverter_master : List (String × BusInfo) → InverterConfig → Action
start_inverter_master buses i =
    on_bus (start_inverter i.name) i.name buses (key_of i.master.rtu i.master.tcp)

abbrev pub keys : List (String × BusInfo) → List String
keys [] = []
keys ((key, b) ∷ rest) = key ∷ keys rest

module _ {F : Type 0} where
  unfoldable pub start_slaves : List (MeterConfig F) → List Action
  start_slaves [] = []
  start_slaves (m ∷ ms) =
      let rest = start_slaves ms in if has_value m.slave then start_slave m.name ∷ rest else rest

  abbrev pub start_master : List (String × BusInfo) → (name : String) → MeterBody F → Action
  start_master buses name (fronius m) = on_bus (start_fronius name) name buses (key_of m.rtu m.tcp)
  start_master buses name (ebz e) = start_easy_meter name

  abbrev pub start_meter : List (String × BusInfo) → MeterConfig F → Action
  start_meter buses m = start_master buses m.name m.body

  -- What the `try` block does, as long as nothing throws.
  abbrev pub after_drop : Options → AppConfig F → List Action
  after_drop o cfg =
      start_mqtt
      ∷ (start_consumer o cfg.postgres
          ++ (map add_bus (keys cfg.buses)
              ++ (map add_bus_log (keys cfg.buses)
                  ++ (map (start_meter cfg.buses) cfg.meters
                      ++ (map (start_inverter_master cfg.buses) cfg.inverters
                          ++ map connect_bus (keys cfg.buses))))))

  unfoldable pub plan : (is_root : Bool) → Options → AppConfig F → List Action
  unfolding start_slaves
  plan is_root o cfg = start_slaves cfg.meters ++ (drop_if is_root o ++ after_drop o cfg)

pub data MainExit : Type 0 where
  config_error not_root : MainExit
  ended : Exit → MainExit

abbrev pub carry_on :
    Option String → Action → List Action × Option String → List Action × Option String
carry_on none a (done, e) = (a ∷ done, e)
carry_on (some e) a rest = ([], some e)

-- What the `catch` clause adds to what befalls the program.
abbrev pub caught : Option String → List Occurrence
caught none = []
caught (some e) = gave_up e ∷ []

module _ (throws : Action → Option String) (out_of_range : String) where
  abbrev pub failure_of : Action → Option String
  failure_of (missing_bus name) = some out_of_range
  failure_of a = throws a

  -- The actions that are done, and the exception that ended them, if there was one.
  unfoldable pub start : List Action → List Action × Option String
  start [] = ([], none)
  start (a ∷ more) = carry_on (failure_of a) a (start more)

  -- `main`. What befalls the program while it starts and then until `wait` returns is given.
  unfoldable pub run_main :
      {E F : Type 0}
      → (is_root : Bool) → Options
      → Result E (AppConfig F)
      → (during later : List Occurrence) → MainExit
  unfolding plan
  run_main is_root o (err e) during later = config_error
  run_main is_root o (ok cfg) during later =
      let (done, e) = start (plan is_root o cfg) in
      if not is_root && not (o.run_user == "")
      then not_root
      else ended (exit_of (occur_all (during ++ (caught e ++ later)) fresh_handler))

-- EXIT_SUCCESS and EXIT_FAILURE
abbrev pub exit_code : MainExit → ℕ
exit_code (ended (success signal)) = 0
exit_code _ = 1
