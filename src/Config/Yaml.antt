-- ===== src/Config/Yaml.antt =====
-- What the parsers of src/config_yaml.cpp use of yaml-cpp, and the errors that they raise.
use fronius_bridge.Prelude.{
  ℕ, String, Bool, true, false, Option, none, some, List, ℤ, Result, ok, err, ◌>>=◌,
}
use fronius_bridge.Config.Types.{Section, ConfigError}

-- `N` is the type of nodes and `F` that of `double`. A key that is missing has no child. A conversion is
-- none where yaml-cpp throws.
pub record Yaml (N F : Type 0) : Type 0 where
  pub child : N → String → Option N
  pub is_null : N → Bool
  pub is_map : N → Bool
  pub is_sequence : N → Bool
  pub items : N → List N
  pub entries : N → List (N × N)
  pub as_int : N → Option ℤ
  pub as_text : N → Option String
  pub as_flag : N → Option Bool
  pub as_number : N → Option F

-- The throw statements, by the setting that the message names, and the prefixes that the surrounding
-- handlers add.
pub data ParseError : Type 0 where
  required : String → ParseError
  not_in_range : String → ParseError
  not_one_transport : ParseError
  bad_conversion : ParseError
  not_a_sequence : Section → ParseError
  not_valid_for_ebz : String → ParseError
  unknown : (setting value : String) → ParseError
  set_together : ParseError
  ca_source_required : ParseError
  two_primary : ParseError
  no_devices : ParseError
  in_slave : ParseError → ParseError
  at_entry : Section → ℕ → ParseError → ParseError
  in_config : ConfigError → ParseError

-- `catch (const std::exception &e) { throw std::runtime_error(prefix + e.what()); }`
abbrev pub rethrow : {E D A : Type 0} → (E → D) → Result E A → Result D A
rethrow f (ok a) = ok a
rethrow f (err e) = err (f e)

-- `as<T>(def)`
abbrev pub or_default : {A : Type 0} → Option A → A → A
or_default none d = d
or_default (some x) d = x

-- `as<T>()`
abbrev pub or_throw : {A : Type 0} → ParseError → Option A → Result ParseError A
or_throw e none = err e
or_throw e (some x) = ok x

abbrev pub scalar_at : {N A : Type 0} → (N → Option A) → Option N → Option A
scalar_at conv none = none
scalar_at conv (some n) = conv n

module _ {N F : Type 0} (yaml : Yaml N F) where
  abbrev pub int_of : N → String → Option ℤ
  int_of node key = scalar_at yaml.as_int (yaml.child node key)

  abbrev pub text_of : N → String → Option String
  text_of node key = scalar_at yaml.as_text (yaml.child node key)

  abbrev pub flag_of : N → String → Option Bool
  flag_of node key = scalar_at yaml.as_flag (yaml.child node key)

  abbrev pub number_of : N → String → Option F
  number_of node key = scalar_at yaml.as_number (yaml.child node key)

  -- `node[key].as<std::string>()`, after a test that the key is there.
  abbrev pub text_required : String → Option N → Result ParseError String
  text_required setting none = err (required setting)
  text_required setting (some n) = or_throw bad_conversion (yaml.as_text n)

  -- `if (node[key]) cfg.field = node[key].as<std::string>();`
  abbrev pub text_optional : Option N → Result ParseError (Option String)
  text_optional none = ok none
  text_optional (some n) = or_throw bad_conversion (yaml.as_text n) >>= λ s. ok (some s)

  -- A text that is empty where the key is missing or null, or does not convert.
  abbrev pub text_or_empty_at : Option N → String
  text_or_empty_at none = ""
  text_or_empty_at (some n) = elim (yaml.is_null n) [
    | true ↦ ""
    | false ↦ or_default (yaml.as_text n) ""
  ]
