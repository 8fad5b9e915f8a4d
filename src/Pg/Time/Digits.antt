-- ===== src/Pg/Time/Digits.antt =====
-- The fields of a timestamp: numbers of a fixed width, printed with leading zeros and read back.
use native.Mathlib.Decide.{dec_lt}
use Prim.Native.Char.{Char, code}
use text.Mathlib.TextLemmas.{cons-append, nil-append, append_assoc}
use fronius_bridge.Prelude.{
  ℕ, zero, suc, ◌+◌, ◌-◌, ◌*◌, ◌/◌, ◌%◌, ◌<◌, ◌≡◌, refl, ap, ◌∙◌, String, append, Bool, true, false,
  Option, none, some, ◌&&◌, leb, nat_beq, ◌==◌, text_eq, pos, to_string, if◌then◌else◌, arith,
}
use fronius_bridge.Pg.Time.{pad2, pad3, pad4}

abbrev pub value : Char → Option ℕ
value c = if leb b'0' (code c) && leb (code c) b'9' then some (code c - b'0') else none

-- So many digits, then what follows.
abbrev pub digits :
    {A : Type 0} → (count : ℕ) (read : ℕ) → String → (ℕ → String → Option A) → Option A
digits zero n s k = k n s
digits (suc count) n String.[] k = none
digits (suc count) n (String.◌∷◌ c s) k = elim (value c) [
  | none ↦ none
  | some d ↦ digits count (n * 10 + d) s k
]

-- One character, then what follows.
abbrev pub mark : {A : Type 0} → ℕ → String → (String → Option A) → Option A
mark c String.[] k = none
mark c (String.◌∷◌ d s) k = if nat_beq (code d) c then k s else none

abbrev pub ended : {A : Type 0} → A → String → Option A
ended a String.[] = some a
ended a (String.◌∷◌ c s) = none

-- A test that every number under a limit passes, counted down, so that texts can be compared one by one.
passes : (test : ℕ → Bool) → (limit : ℕ) → Bool
passes test zero = true
passes test (suc limit) = if passes test limit then test limit else false

passes-at : (test : ℕ → Bool) (limit k : ℕ) → k < limit → passes test limit ≡ true → test k ≡ true
unfolding passes
passes-at test zero k under e = absurd (omega arith)
passes-at test (suc limit) k under e = elim (dec_lt k limit) [
  | yes less ↦ passes-at test limit k less (first (passes test limit) (test limit) e)
  | no more ↦ ap test {x = k} {y = limit} (omega arith) ∙ second (passes test limit) (test limit) e
]
  where
    first : (a b : Bool) → (if a then b else false) ≡ true → a ≡ true
    first a b e = ground arith

    second : (a b : Bool) → (if a then b else false) ≡ true → b ≡ true
    second a b e = ground arith

abbrev shown : ℕ → String
shown n = to_string (pos n)

-- The digits one by one.
abbrev two : ℕ → String
two n = append (shown (n / 10)) (shown (n % 10))

abbrev three : ℕ → String
three n = append (shown (n / 100)) (two (n % 100))

abbrev four : ℕ → String
four n = append (shown (n / 1000)) (three (n % 1000))

twos : passes (λ n. pad2 n == two n) 100 ≡ true
unfolding passes to_string
twos = refl

threes : passes (λ n. pad3 n == three n) 1000 ≡ true
unfolding passes to_string
threes = refl

fours : passes (λ n. pad4 n == four n) 10000 ≡ true
unfolding passes to_string
fours = refl

pad2_eq : (n : ℕ) → n < 100 → pad2 n ≡ two n
pad2_eq n h = (text_eq.beq_iff (pad2 n) (two n)).0 (passes-at _ 100 n h twos)

pad3_eq : (n : ℕ) → n < 1000 → pad3 n ≡ three n
pad3_eq n h = (text_eq.beq_iff (pad3 n) (three n)).0 (passes-at _ 1000 n h threes)

pad4_eq : (n : ℕ) → n < 10000 → pad4 n ≡ four n
pad4_eq n h = (text_eq.beq_iff (pad4 n) (four n)).0 (passes-at _ 10000 n h fours)

unfoldable pub single : Char → String
single c = String.◌∷◌ c String.[]

digit_char : (n : ℕ) → n < 10 → (c : Char) × (shown n ≡ single c) × (value c ≡ some n)
unfolding to_string single
digit_char zero h = ("0", refl, refl)
digit_char (suc zero) h = ("1", refl, refl)
digit_char (suc (suc zero)) h = ("2", refl, refl)
digit_char (suc (suc (suc zero))) h = ("3", refl, refl)
digit_char (suc (suc (suc (suc zero)))) h = ("4", refl, refl)
digit_char (suc (suc (suc (suc (suc zero))))) h = ("5", refl, refl)
digit_char (suc (suc (suc (suc (suc (suc zero)))))) h = ("6", refl, refl)
digit_char (suc (suc (suc (suc (suc (suc (suc zero))))))) h = ("7", refl, refl)
digit_char (suc (suc (suc (suc (suc (suc (suc (suc zero)))))))) h = ("8", refl, refl)
digit_char (suc (suc (suc (suc (suc (suc (suc (suc (suc zero))))))))) h = ("9", refl, refl)
digit_char (suc (suc (suc (suc (suc (suc (suc (suc (suc (suc n)))))))))) h = absurd (omega arith)

single-append : (c : Char) (s : String) → append (single c) s ≡ String.◌∷◌ c s
unfolding single
single-append c s = cons-append c String.[] s ∙ ap (λ t. String.◌∷◌ c t) (nil-append s)

module _ {A : Type 0} where
  digits-one :
      (count n a : ℕ) (s : String) (k : ℕ → String → Option A)
      → a < 10
      → digits (suc count) n (append (shown a) s) k ≡ digits count (n * 10 + a) s k
  digits-one count n a s k h =
      let (c, e, v) = digit_char a h in
      ap (λ t. digits (suc count) n t k) (ap (λ t. append t s) e ∙ single-append c s)
      ∙ ap (λ (o : Option ℕ). elim o [ none ↦ none | some d ↦ digits count (n * 10 + d) s k ]) v

  digits-two :
      (count n a : ℕ) (s : String) (k : ℕ → String → Option A)
      → a < 100
      → digits (suc (suc count)) n (append (two a) s) k ≡ digits count (n * 100 + a) s k
  digits-two count n a s k h =
      ap (λ t. digits (suc (suc count)) n t k) (append_assoc (shown (a / 10)) (shown (a % 10)) s)
      ∙ digits-one (suc count) n (a / 10) _ k (omega arith)
      ∙ digits-one count (n * 10 + a / 10) (a % 10) s k (omega arith)
      ∙ ap (λ m. digits count m s k) (omega arith)

  digits-three :
      (count n a : ℕ) (s : String) (k : ℕ → String → Option A)
      → a < 1000
      → digits (suc (suc (suc count))) n (append (three a) s) k ≡ digits count (n * 1000 + a) s k
  digits-three count n a s k h =
      ap (λ t. digits (suc (suc (suc count))) n t k)
        (append_assoc (shown (a / 100)) (two (a % 100)) s)
      ∙ digits-one (suc (suc count)) n (a / 100) _ k (omega arith)
      ∙ digits-two count (n * 10 + a / 100) (a % 100) s k (omega arith)
      ∙ ap (λ m. digits count m s k) (omega arith)

  digits-four :
      (n a : ℕ) (s : String) (k : ℕ → String → Option A)
      → a < 10000
      → digits 4 n (append (four a) s) k ≡ k (n * 10000 + a) s
  digits-four n a s k h =
      ap (λ t. digits 4 n t k) (append_assoc (shown (a / 1000)) (three (a % 1000)) s)
      ∙ digits-one 3 n (a / 1000) _ k (omega arith)
      ∙ digits-three 0 (n * 10 + a / 1000) (a % 1000) s k (omega arith)
      ∙ ap (λ m. k m s) (omega arith)

  -- A field of two, three or four digits is read back.
  read2 :
      (a : ℕ) (s : String) (k : ℕ → String → Option A)
      → a < 100
      → digits 2 0 (append (pad2 a) s) k ≡ k a s
  read2 a s k h =
      ap (λ t. digits 2 0 (append t s) k) (pad2_eq a h)
      ∙ digits-two 0 0 a s k h
      ∙ ap (λ m. k m s) (omega arith)

  pub read3 :
      (a : ℕ) (s : String) (k : ℕ → String → Option A)
      → a < 1000
      → digits 3 0 (append (pad3 a) s) k ≡ k a s
  read3 a s k h =
      ap (λ t. digits 3 0 (append t s) k) (pad3_eq a h)
      ∙ digits-three 0 0 a s k h
      ∙ ap (λ m. k m s) (omega arith)

  pub read4 :
      (a : ℕ) (s : String) (k : ℕ → String → Option A)
      → a < 10000
      → digits 4 0 (append (pad4 a) s) k ≡ k a s
  read4 a s k h =
      ap (λ t. digits 4 0 (append t s) k) (pad4_eq a h)
      ∙ digits-four 0 a s k h
      ∙ ap (λ m. k m s) (omega arith)

  pub read_mark :
      (c : Char) (n : ℕ) (s : String) (k : String → Option A)
      → nat_beq (code c) n ≡ true
      → mark n (append (single c) s) k ≡ k s
  read_mark c n s k h =
      ap (λ t. mark n t k) (single-append c s) ∙ ap (λ b. if b then k s else none) h

  -- A field of two digits and the mark after it.
  pub read_field :
      (c : Char) (m : ℕ) (k : ℕ → String → Option A) (a : ℕ) (s : String)
      → nat_beq (code c) m ≡ true
      → a < 100
      → digits 2 0 (append (pad2 a) (append (single c) s)) (λ n s. mark m s (k n)) ≡ k a s
  read_field c m k a s e h =
      read2 a (append (single c) s) (λ n s. mark m s (k n)) h ∙ read_mark c m s (k a) e
