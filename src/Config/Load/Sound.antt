-- ===== src/Config/Load/Sound.antt =====
-- What `loadConfig` promises of a configuration that it returns.
use mathlib.Core.Path.{subst}
use fronius_bridge.Prelude.{
  ℕ, suc, ◌≤◌, ◌≡◌, ◌+◌, refl, sym, ◌∙◌, String, Bool, true, false, not, ◌&&◌, Option, none, some,
  List, [], ◌∷◌, ltb, length, All, ◌==◌, text_eq, has_value, Result, ok, err, throw_if, >>=-eq-ok,
  ◌>>=◌, if-elim, if◌then◌else◌, arith,
}
use fronius_bridge.Doubles.{Doubles}
use fronius_bridge.Config.Types.{
  InverterConfig, MeterConfig, MeterBody, fronius, ebz, Section, inverters, meters, Devices,
}
use fronius_bridge.Config.Yaml.{
  Yaml, ParseError, at_entry, rethrow, or_throw, no_devices, in_config, or_default, flag_of,
  text_of, in_slave, required, two_primary, text_or_empty_at,
}
use fronius_bridge.Config.Names.{IsName, check_name, parse_name, check_name_iff}
use fronius_bridge.Config.Parse.{parse_modbus_master, parse_rtu}
use fronius_bridge.Config.Parse.Ranges.{
  IsInRange, IsRtu, parse_modbus_master-IsInRange, parse_rtu-IsRtu, is_ok,
}
use fronius_bridge.Config.Sections.{
  parse_entries, parse_section, parse_inverter, parse_inverters, parse_meter, parse_meters,
  count_primary, parse_meter_slave, parse_location, parse_body, parse_easy_meter, parse_grid,
  first_present, unused_keys,
}
use fronius_bridge.Config.Sections.Ranges.{
  IsSlaveIfAny, IsGrid, parse_meter_slave-IsSlave, parse_grid-IsGrid,
}
use fronius_bridge.Config.Services.{parse_mqtt, parse_postgres, parse_logger}
use fronius_bridge.Config.Validate.Checks.{validate_config}
use fronius_bridge.Config.Validate.Spec.{IsValid}
use fronius_bridge.Config.Validate.Exact.{validate_config_iff}
use fronius_bridge.Config.Buses.Derive.{derive_buses}
use fronius_bridge.Config.Buses.Fold.{members_at, devices_on, derive_buses-members}
use fronius_bridge.Config.Buses.Lookup.{HasBus, masters-HasBus}
use fronius_bridge.Config.Validate.Refs.{masters}
use fronius_bridge.Config.Load.{AppConfig, is_nil, site_if_present, load_config}

abbrev pub IsInverter : InverterConfig → Type 0
IsInverter i = IsName i.name × IsInRange i.master

-- An EasyMeter has a serial line and the settings of its grid.
abbrev pub IsBody : {F : Type 0} → Doubles F → MeterBody F → Type 0
IsBody dbl (fronius master) = IsInRange master
IsBody dbl (ebz e) = IsRtu (some e.rtu) × IsGrid dbl e.grid

pub record IsMeter {F : Type 0} (dbl : Doubles F) (m : MeterConfig F) : Type 0 where
  pub name : IsName m.name
  pub slave : IsSlaveIfAny m.slave
  pub located : m.primary ≡ true → has_value m.location ≡ true
  pub body : IsBody dbl m.body

pub record IsLoaded {F : Type 0} (dbl : Doubles F) (app : AppConfig F) : Type 0 where
  pub some_device : 1 ≤ length app.inverters + length app.meters
  pub inverters : All IsInverter app.inverters
  pub meters : All (IsMeter dbl) app.meters
  pub one_primary : count_primary app.meters ≤ 1
  pub valid : IsValid app.devices
  pub buses : (k : String) → members_at k app.buses ≡ devices_on k app.devices
  pub found : All (HasBus app.buses) (masters app.devices)

rethrow-ok : {E D A : Type 0} (f : E → D) (r : Result E A) (x : A) → rethrow f r ≡ ok x → r ≡ ok x
rethrow-ok f (ok a) x h = cc
rethrow-ok f (err e) x h = cc

check_name-kept : (s t : String) → check_name s ≡ ok t → check_name s ≡ ok s
unfolding check_name
check_name-kept s t h = ground arith

check_name-IsName : (s t : String) → check_name s ≡ ok t → IsName t
unfolding check_name
check_name-IsName s t h =
    let k = check_name-kept s t h in is_ok IsName s t (sym k ∙ h) ((check_name_iff s).0 k)

parse_entries-All :
    {N A : Type 0} (P : A → Type 0) (section : Section) (parse : N → Result ParseError A)
    → ((node : N) (x : A) → parse node ≡ ok x → P x)
    → (i : ℕ) (nodes : List N) (xs : List A) → parse_entries section parse i nodes ≡ ok xs
    → All P xs
unfolding parse_entries
parse_entries-All P section parse good i [] xs h = is_ok (All P) [] xs h tt
parse_entries-All P section parse good i (node ∷ nodes) xs h =
    let (y, a, h1) = >>=-eq-ok (rethrow (at_entry section i) (parse node)) _ h in
    let (ys, b, h2) = >>=-eq-ok (parse_entries section parse (suc i) nodes) _ h1 in
    is_ok (All P) (y ∷ ys) xs h2 (
      good node y (rethrow-ok (at_entry section i) (parse node) y a),
      parse_entries-All P section parse good (suc i) nodes ys b,
    )

located_ok : (p l : Bool) (x : ParseError) → throw_if (p && not l) x ≡ ok tt → p ≡ true → l ≡ true
located_ok p true x h e = refl
located_ok true false x h e = cc
located_ok false false x h e = cc

or_throw-ok :
    {A : Type 0} (e : ParseError) (o : Option A) (x : A) → or_throw e o ≡ ok x → o ≡ some x
or_throw-ok e none x h = cc
or_throw-ok e (some y) x h = cc

one_primary_ok : (n : ℕ) → throw_if (ltb 1 n) two_primary ≡ ok tt → n ≤ 1
one_primary_ok n h = ground arith

some_device_ok :
    {A B : Type 0} (xs : List A) (ys : List B)
    → throw_if (is_nil xs && is_nil ys) no_devices ≡ ok tt
    → 1 ≤ length xs + length ys
some_device_ok [] [] h = cc
some_device_ok [] (y ∷ ys) h = omega arith
some_device_ok (x ∷ xs) ys h = omega arith

from_sequence :
    {A : Type 0} (b : Bool) (r : Result ParseError A) (e : ParseError) (x : A)
    → (if b then r else err e) ≡ ok x
    → r ≡ ok x
from_sequence b r e x h = ground arith

module _ {N F : Type 0} (yaml : Yaml N F) (dbl : Doubles F) where
  parse_section-All :
      {A : Type 0} (P : A → Type 0) (section : Section) (parse : N → Result ParseError A)
      → ((node : N) (x : A) → parse node ≡ ok x → P x)
      → (node : Option N) (xs : List A) → parse_section yaml dbl section parse node ≡ ok xs
      → All P xs
  unfolding parse_section
  parse_section-All P section parse good none xs h = is_ok (All P) [] xs h tt
  parse_section-All P section parse good (some node) xs h =
      parse_entries-All P section parse good 0 (yaml.items node) xs
        (from_sequence (yaml.is_sequence node) _ _ xs h)

  parse_inverter-IsInverter :
      (node : N) (i : InverterConfig) → parse_inverter yaml dbl node ≡ ok i → IsInverter i
  unfolding parse_inverter
  parse_inverter-IsInverter node i h =
      let (master, a, h1) = >>=-eq-ok (parse_modbus_master yaml node) _ h in
      let (name, b, h2) = >>=-eq-ok (parse_name yaml node) _ h1 in
      is_ok IsInverter _ i h2 (
        check_name-IsName (text_or_empty_at yaml (yaml.child node "name")) name b,
        parse_modbus_master-IsInRange yaml node master a,
      )

  parse_easy_meter-IsBody :
      (node : N) (b : MeterBody F)
      → (parse_easy_meter yaml dbl node >>= λ e. ok (ebz e)) ≡ ok b
      → IsBody dbl b
  unfolding parse_easy_meter
  parse_easy_meter-IsBody node b h =
      let (e, a, h1) = >>=-eq-ok (parse_easy_meter yaml dbl node) _ h in
      let (_, _, a1) = >>=-eq-ok (first_present yaml node unused_keys) _ a in
      let (found, r, a2) = >>=-eq-ok (parse_rtu yaml (yaml.child node "rtu")) _ a1 in
      let (rtu, o, a3) = >>=-eq-ok (or_throw (required "rtu") found) _ a2 in
      let (grid, g, a4) = >>=-eq-ok (parse_grid yaml dbl (yaml.child node "grid")) _ a3 in
      is_ok (IsBody dbl) _ b h1 (
        is_ok (λ e. IsBody dbl (ebz e)) _ e a4
          (
            subst IsRtu (or_throw-ok (required "rtu") found rtu o)
                (parse_rtu-IsRtu yaml (yaml.child node "rtu") found r),
            parse_grid-IsGrid yaml dbl (yaml.child node "grid") grid g,
          ))

  parse_body-IsBody :
      (node : N) (type : String) (b : MeterBody F)
      → parse_body yaml dbl node type ≡ ok b
      → IsBody dbl b
  unfolding parse_body
  parse_body-IsBody node type b h =
      if-elim (λ r. r ≡ ok b → IsBody dbl b) (type == "fronius")
        (λ h1.
          let (_, _, h2) = >>=-eq-ok (throw_if (has_value (yaml.child node "grid")) _) _ h1 in
          let (m, a, h3) = >>=-eq-ok (parse_modbus_master yaml node) _ h2 in
          is_ok (IsBody dbl) _ b h3 (parse_modbus_master-IsInRange yaml node m a))
        (if-elim (λ r. r ≡ ok b → IsBody dbl b) (type == "ebz") (parse_easy_meter-IsBody node b)
          (λ h1. cc))
        h

  parse_meter-IsMeter :
      (node : N) (m : MeterConfig F) → parse_meter yaml dbl node ≡ ok m → IsMeter dbl m
  unfolding parse_meter
  parse_meter-IsMeter node m h =
      let primary = or_default (flag_of yaml node "primary") false in
      let type = or_default (text_of yaml node "type") "fronius" in
      let (name, a, h1) = >>=-eq-ok (parse_name yaml node) _ h in
      let (slave, s, h2) =
        >>=-eq-ok (rethrow in_slave (parse_meter_slave yaml dbl (yaml.child node "slave"))) _ h1 in
      let (location, _, h3) =
        >>=-eq-ok (parse_location yaml dbl (yaml.child node "location")) _ h2 in
      let (_, c, h4) =
        >>=-eq-ok (throw_if (primary && not (has_value location)) (required "location")) _ h3 in
      let (body, d, h5) = >>=-eq-ok (parse_body yaml dbl node type) _ h4 in
      is_ok (IsMeter dbl) _ m h5 (record {
        name = check_name-IsName (text_or_empty_at yaml (yaml.child node "name")) name a;
        slave =
            parse_meter_slave-IsSlave yaml dbl (yaml.child node "slave") slave
              (rethrow-ok in_slave (parse_meter_slave yaml dbl (yaml.child node "slave")) slave s);
        located = located_ok primary (has_value location) (required "location") c;
        body = parse_body-IsBody node type body d;
      })

  parse_meters_sound :
      (node : Option N) (ms : List (MeterConfig F))
      → parse_meters yaml dbl node ≡ ok ms
      → All (IsMeter dbl) ms × (count_primary ms ≤ 1)
  unfolding parse_meters
  parse_meters_sound node ms h =
      let (result, a, h1) =
        >>=-eq-ok (parse_section yaml dbl meters (parse_meter yaml dbl) node) _ h in
      let (_, c, h2) = >>=-eq-ok (throw_if (ltb 1 (count_primary result)) two_primary) _ h1 in
      is_ok (λ l. All (IsMeter dbl) l × (count_primary l ≤ 1)) result ms h2
        (
          parse_section-All (IsMeter dbl) meters (parse_meter yaml dbl) parse_meter-IsMeter node
              result a,
          one_primary_ok (count_primary result) c,
        )

  pub load_config-IsLoaded :
      (root : N) (app : AppConfig F) → load_config yaml dbl root ≡ ok app → IsLoaded dbl app
  unfolding load_config
  load_config-IsLoaded root app h =
      let (is, a, h1) = >>=-eq-ok (parse_inverters yaml dbl (yaml.child root "inverters")) _ h in
      let (ms, b, h2) = >>=-eq-ok (parse_meters yaml dbl (yaml.child root "meters")) _ h1 in
      let (_, c, h3) = >>=-eq-ok (throw_if (is_nil is && is_nil ms) no_devices) _ h2 in
      let (_, _, h4) = >>=-eq-ok (parse_mqtt yaml (yaml.child root "mqtt")) _ h3 in
      let (_, _, h5) = >>=-eq-ok (parse_postgres yaml (yaml.child root "postgres")) _ h4 in
      let (_, _, h6) = >>=-eq-ok (parse_logger yaml (yaml.child root "logger")) _ h5 in
      let (_, _, h7) = >>=-eq-ok (site_if_present yaml dbl (yaml.child root "site")) _ h6 in
      let cfg : Devices F = record { inverters = is; meters = ms } in
      let (_, v, h8) = >>=-eq-ok (rethrow in_config (validate_config cfg)) _ h7 in
      let (buses, d, h9) = >>=-eq-ok (rethrow in_config (derive_buses cfg)) _ h8 in
      let listed = derive_buses-members cfg (rethrow-ok in_config (derive_buses cfg) buses d) in
      let (good, one) = parse_meters_sound (yaml.child root "meters") ms b in
      is_ok (IsLoaded dbl) _ app h9 (record {
        some_device = some_device_ok is ms c;
        inverters =
            parse_section-All IsInverter inverters (parse_inverter yaml dbl)
              parse_inverter-IsInverter _ is a;
        meters = good;
        one_primary = one;
        valid = (validate_config_iff cfg).0 (rethrow-ok in_config (validate_config cfg) tt v);
        buses = listed;
        found = masters-HasBus cfg buses listed;
      })
