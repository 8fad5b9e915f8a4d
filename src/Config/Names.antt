-- ===== src/Config/Names.antt =====
-- `parseName` of src/config_yaml.cpp. A name's characters are its code points, which are its bytes if it is
-- ASCII; one that is not is refused by the character set.
use Prim.Native.Char.{code}
use fronius_bridge.Prelude.{
  ℕ, ◌≤◌, ◌≡◌, ◌≢◌, ◌↔◌, ◌⊎◌, String, Bool, true, ◌||◌, ◌&&◌, not, List, [], ◌∷◌, All, length, leb,
  ltb, nat_beq, ◌==◌, text_eq, Result, ok, ◌>>◌, throw_if, arith,
}
use fronius_bridge.Config.Yaml.{Yaml, ParseError, required, not_in_range, text_or_empty_at}

abbrev pub codes : String → List ℕ
codes String.[] = []
codes (String.◌∷◌ c s) = code c ∷ codes s

-- [A-Za-z0-9_-]
abbrev pub is_name_char : ℕ → Bool
is_name_char c =
    (leb b'A' c && leb c b'Z')
    || (leb b'a' c && leb c b'z')
    || (leb b'0' c && leb c b'9')
    || nat_beq c b'_'
    || nat_beq c b'-'

abbrev pub all_name_chars : List ℕ → Bool
all_name_chars [] = true
all_name_chars (c ∷ cs) = is_name_char c && all_name_chars cs

unfoldable pub check_name : String → Result ParseError String
check_name name = do
  throw_if (name == "") (required "name")
  throw_if (ltb 32 (length (codes name))) (not_in_range "name")
  throw_if (not (all_name_chars (codes name))) (not_in_range "name")
  throw_if (name == "meter" || name == "inverter") (not_in_range "name")
  ok name

abbrev pub parse_name : {N F : Type 0} → Yaml N F → N → Result ParseError String
parse_name yaml node = check_name (text_or_empty_at yaml (yaml.child node "name"))

-- Letters, digits, '_' and '-'.
abbrev pub NameChar : ℕ → Type 0
NameChar c =
    ((b'A' ≤ c) × (c ≤ b'Z'))
    ⊎ ((b'a' ≤ c) × (c ≤ b'z'))
    ⊎ ((b'0' ≤ c) × (c ≤ b'9'))
    ⊎ (c ≡ b'_')
    ⊎ (c ≡ b'-')

pub record IsName (name : String) : Type 0 where
  pub nonempty : name ≢ ""
  pub short : length (codes name) ≤ 32
  pub safe : All NameChar (codes name)
  pub not_meter : name ≢ "meter"
  pub not_inverter : name ≢ "inverter"

is_name_char_iff : (c : ℕ) → (is_name_char c ≡ true) ↔ NameChar c
is_name_char_iff c = ground arith

all_name_chars_iff : (cs : List ℕ) → (all_name_chars cs ≡ true) ↔ All NameChar cs
all_name_chars_iff [] = ground arith
all_name_chars_iff (c ∷ cs) = ground (arith, is_name_char_iff c, all_name_chars_iff cs)

-- The check accepts a name and keeps it exactly if it is not empty, has at most 32 characters, only letters,
-- digits, '_' and '-', and is neither "meter" nor "inverter".
pub check_name_iff : (name : String) → (check_name name ≡ ok name) ↔ IsName name
unfolding check_name
check_name_iff name = ground (
  arith,
  all_name_chars_iff (codes name),
  text_eq.beq_iff name "",
  text_eq.beq_iff name "meter",
  text_eq.beq_iff name "inverter",
)
