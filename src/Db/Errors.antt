-- ===== src/Db/Errors.antt =====
-- `DbError` of include/db_error.h. The text of a message is not modelled.
use fronius_bridge.Prelude.{
  String, ◌≡◌, ◌≢◌, ◌↔◌, ◌⊎◌, Bool, true, false, ◌||◌, Option, none, some, arith, ◌==◌, text_eq,
  if◌then◌else◌,
}

pub data Kind : Type 0 where
  connect migration query protocol internal : Kind

pub data Severity : Type 0 where
  transient fatal : Severity

pub record DbError : Type 0 where
  pub kind : Kind
  pub severity : Severity
  pub sqlstate : Option String

-- `size() >= 2` and `substr(0, 2)` of an SQLSTATE, which is ASCII.
abbrev pub class_of_state : String → Option String
class_of_state String.[] = none
class_of_state (String.◌∷◌ c String.[]) = none
class_of_state (String.◌∷◌ c (String.◌∷◌ d s)) = some (String.◌∷◌ c (String.◌∷◌ d String.[]))

abbrev pub class_of : Option String → Option String
class_of none = none
class_of (some s) = class_of_state s

abbrev pub is_class : Option String → String → Bool
is_class none c = false
is_class (some d) c = d == c

-- The classes that retrying does not help.
abbrev is_misconfigured : Option String → Bool
is_misconfigured c = is_class c "0A" || is_class c "28" || is_class c "3D" || is_class c "42"

severity_of_kind : Kind → Option String → Severity
severity_of_kind connect c = transient
severity_of_kind protocol c = transient
severity_of_kind internal c = fatal
severity_of_kind migration c = fatal
severity_of_kind query c = if is_misconfigured c then fatal else transient

unfoldable pub deduce_severity : Kind → Option String → Severity
unfolding severity_of_kind
deduce_severity k sqlstate =
    if is_class (class_of sqlstate) "08" then transient else severity_of_kind k (class_of sqlstate)

-- `DbError::make`
unfoldable pub make : Kind → DbError
unfolding deduce_severity
make k = record { kind = k; severity = deduce_severity k none; sqlstate = none }

-- `DbError::makeWithState`
unfoldable pub make_with_state : Kind → String → DbError
make_with_state k s = record { kind = k; severity = deduce_severity k (some s); sqlstate = some s }

-- The errors that are taken for an operator's to mend, by kind and SQLSTATE class.
abbrev pub NeedsOperator : Kind → Option String → Type 0
NeedsOperator connect c = ⊥
NeedsOperator protocol c = ⊥
NeedsOperator internal c = c ≢ some "08"
NeedsOperator migration c = c ≢ some "08"
NeedsOperator query c = (c ≡ some "0A") ⊎ (c ≡ some "28") ⊎ (c ≡ some "3D") ⊎ (c ≡ some "42")

is_class_iff : (c : Option String) (s : String) → (is_class c s ≡ true) ↔ (c ≡ some s)
is_class_iff none s = ground arith
is_class_iff (some d) s = ground (arith, text_eq.beq_iff d s)

fatal_cases :
    (k : Kind) (c : Option String)
    → ((if is_class c "08" then transient else severity_of_kind k c) ≡ fatal) ↔ NeedsOperator k c
unfolding severity_of_kind
fatal_cases connect c = ground arith
fatal_cases protocol c = ground arith
fatal_cases internal c = ground (arith, is_class_iff c "08")
fatal_cases migration c = ground (arith, is_class_iff c "08")
fatal_cases query none = ground arith
fatal_cases query (some d) = ground (
  arith,
  text_eq.beq_iff d "08",
  text_eq.beq_iff d "0A",
  text_eq.beq_iff d "28",
  text_eq.beq_iff d "3D",
  text_eq.beq_iff d "42",
  text_eq.beq_iff "08" "0A",
  text_eq.beq_iff "08" "28",
  text_eq.beq_iff "08" "3D",
  text_eq.beq_iff "08" "42",
)

-- The kinds and SQLSTATE classes of the errors that are fatal: a connection-class SQLSTATE (08) is never fatal,
-- whatever the kind; otherwise an internal or migration error is, a connect or protocol error is not,
-- and a query error is for the SQLSTATE classes 0A, 28, 3D and 42 alone.
pub deduce_severity_iff :
    (k : Kind) (sqlstate : Option String)
    → (deduce_severity k sqlstate ≡ fatal) ↔ NeedsOperator k (class_of sqlstate)
unfolding deduce_severity
deduce_severity_iff k s = fatal_cases k (class_of s)
