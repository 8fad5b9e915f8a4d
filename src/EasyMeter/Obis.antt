-- ===== src/EasyMeter/Obis.antt =====
-- The parsing of a telegram's lines: the loops of `EasyMeter::updateValuesAndJson` and `updateDeviceAndJson`.
-- `std::regex_search` and `std::stod` are parameters. A line is its bytes.
use fronius_bridge.Prelude.{
  ℕ, String, Bool, true, false, ◌||◌, Option, none, some, List, [], ◌∷◌, nat_beq, if◌then◌else◌,
  Result, ok, err, ◌>>=◌, ◌==◌, text_eq,
}
use fronius_bridge.Doubles.{Doubles, zero_double}

-- The two groups of the OBIS expression, the second group of the version line, and a number's text.
pub record Patterns (F : Type 0) : Type 0 where
  pub obis : List ℕ → Option (String × List ℕ)
  pub version : List ℕ → Option (List ℕ)
  pub stod : List ℕ → Option F

abbrev pub keep_unless : Bool → ℕ → List ℕ → List ℕ
keep_unless true b rest = rest
keep_unless false b rest = b ∷ rest

-- `std::remove` of '\r'.
abbrev pub without_cr : List ℕ → List ℕ
without_cr [] = []
without_cr (b ∷ bs) = keep_unless (nat_beq b 13) b (without_cr bs)

abbrev pub end_line : Bool → ℕ → List (List ℕ) → List (List ℕ)
end_line true b lines = [] ∷ lines
end_line false b [] = (b ∷ []) ∷ []
end_line false b (line ∷ lines) = (b ∷ line) ∷ lines

-- The lines that `std::getline` gives, with one more that is empty after a last line end; empty lines are
-- skipped.
abbrev pub lines_of : List ℕ → List (List ℕ)
lines_of [] = []
lines_of (b ∷ bs) = end_line (nat_beq b 10) b (lines_of bs)

-- `value_unit.substr(0, value_unit.find("*"))`
unfoldable pub before_star : List ℕ → List ℕ
before_star [] = []
before_star (b ∷ bs) = let rest = before_star bs in if nat_beq b b'*' then [] else b ∷ rest

-- What the lines set; the energy in Wh.
pub record Reading (F : Type 0) : Type 0 where
  pub active_energy : F
  pub active_power : F
  pub power1 : F
  pub power2 : F
  pub power3 : F
  pub voltage1 : F
  pub voltage2 : F
  pub voltage3 : F

pub data LineError : Type 0 where
  malformed_obis malformed_version not_a_number : LineError

module _ {F : Type 0} (dbl : Doubles F) (patterns : Patterns F) where
  abbrev pub no_reading : Reading F
  no_reading = record {
    active_energy = zero_double dbl;
    active_power = zero_double dbl;
    power1 = zero_double dbl;
    power2 = zero_double dbl;
    power3 = zero_double dbl;
    voltage1 = zero_double dbl;
    voltage2 = zero_double dbl;
    voltage3 = zero_double dbl;
  }

  -- `std::stod` of the value before its unit.
  abbrev pub number_in : List ℕ → Result LineError F
  number_in value_unit = elim (patterns.stod (before_star value_unit)) [
    | none ↦ err not_a_number
    | some x ↦ ok x
  ]

  abbrev pub set_number : List ℕ → (F → Reading F) → Result LineError (Reading F)
  set_number value_unit set = number_in value_unit >>= λ x. ok (set x)

  -- A code that is not one of the eight changes nothing, and its value is not converted.
  unfoldable pub store_obis :
      (obis : String) → (value_unit : List ℕ) → Reading F → Result LineError (Reading F)
  unfolding before_star
  store_obis obis value r =
      if obis == "1-0:1.8.0*255"
      then set_number value (λ x. record r { active_energy = dbl.mul x (dbl.literal "1000.0") })
      else if obis == "1-0:16.7.0*255"
      then set_number value (λ x. record r { active_power = x })
      else if obis == "1-0:36.7.0*255"
      then set_number value (λ x. record r { power1 = x })
      else if obis == "1-0:56.7.0*255"
      then set_number value (λ x. record r { power2 = x })
      else if obis == "1-0:76.7.0*255"
      then set_number value (λ x. record r { power3 = x })
      else if obis == "1-0:32.7.0*255"
      then set_number value (λ x. record r { voltage1 = x })
      else if obis == "1-0:52.7.0*255"
      then set_number value (λ x. record r { voltage2 = x })
      else if obis == "1-0:72.7.0*255"
      then set_number value (λ x. record r { voltage3 = x })
      else ok r

  abbrev pub store_match : Option (String × List ℕ) → Reading F → Result LineError (Reading F)
  store_match none r = err malformed_obis
  store_match (some (obis, value)) r = store_obis obis value r

  -- A line of values; the first and the last line of a telegram are skipped.
  abbrev pub take_values : List ℕ → Reading F → Result LineError (Reading F)
  take_values [] r = ok r
  take_values (b ∷ bs) r =
      if nat_beq b b'/' || nat_beq b b'!' then ok r else store_match (patterns.obis (b ∷ bs)) r

  unfoldable pub read_values : List (List ℕ) → Reading F → Result LineError (Reading F)
  unfolding store_obis
  read_values [] r = ok r
  read_values (line ∷ lines) r = take_values (without_cr line) r >>= λ r'. read_values lines r'

  -- The firmware version and the serial number.
  pub record Identity : Type 0 where
    pub fw_version : List ℕ
    pub serial_number : List ℕ

  abbrev pub take_version : Option (List ℕ) → Identity → Result LineError Identity
  take_version none d = err malformed_version
  take_version (some v) d = ok (record d { fw_version = v })

  abbrev pub take_serial : Option (String × List ℕ) → Identity → Result LineError Identity
  take_serial none d = err malformed_obis
  take_serial (some (obis, value)) d =
      if obis == "1-0:96.1.0*255" then ok (record d { serial_number = value }) else ok d

  abbrev pub take_identity : List ℕ → Identity → Result LineError Identity
  take_identity [] d = ok d
  take_identity (b ∷ bs) d =
      if nat_beq b b'!'
      then ok d
      else if nat_beq b b'/'
      then take_version (patterns.version (b ∷ bs)) d
      else take_serial (patterns.obis (b ∷ bs)) d

  unfoldable pub read_identity : List (List ℕ) → Identity → Result LineError Identity
  read_identity [] d = ok d
  read_identity (line ∷ lines) d =
      take_identity (without_cr line) d >>= λ d'. read_identity lines d'
