-- ===== src/Doubles.antt =====
-- C++ `double`. Its literals and operations are a parameter, and the program's own functions of
-- include/utils.h are defined from them.
use fronius_bridge.Prelude.{ℕ, String, Bool}

pub record Doubles (F : Type 0) : Type 0 where
  pub literal : String → F
  pub less : F → F → Bool
  pub less_eq : F → F → Bool
  pub add : F → F → F
  pub sub : F → F → F
  pub mul : F → F → F
  pub div : F → F → F
  pub abs : F → F
  pub sqrt : F → F
  pub hypot : F → F → F
  pub sin : F → F
  pub tan : F → F
  pub acos : F → F
  -- `std::round`, and `std::pow(10.0, n)`
  pub round : F → F
  pub pow_ten : ℕ → F
  -- `static_cast<float>`
  pub to_single : F → F

module _ {F : Type 0} (dbl : Doubles F) where
  abbrev pub zero_double : F
  zero_double = dbl.literal "0.0"

  -- `Utils::scaleToKilo`
  unfoldable pub scale_to_kilo : F → F
  scale_to_kilo base = dbl.div base (dbl.literal "1000.0")

  -- `Utils::roundTo`
  unfoldable pub round_to : F → (decimals : ℕ) → F
  round_to value decimals =
      dbl.div (dbl.round (dbl.mul value (dbl.pow_ten decimals))) (dbl.pow_ten decimals)
