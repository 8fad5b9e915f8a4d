-- ===== src/Pg/Time.antt =====
-- `timeFromMillis` of src/postgres_client.cpp, with the calendar of `std::chrono::sys_time` and the format
-- "{:%Y-%m-%d %H:%M:%S}+00", in which the seconds have three decimals. The milliseconds
-- since the epoch are a natural number that the 64 bits of the source hold.
pub mod Instant
pub mod Digits
pub mod Text
use fronius_bridge.Prelude.{
  ℕ, zero, suc, ◌+◌, ◌-◌, ◌/◌, ◌%◌, ◌≡◌, refl, String, append, Bool, true, false, List, [], ◌∷◌,
  ltb, nat_beq, pos, not, ◌&&◌, ◌||◌, to_string, if◌then◌else◌,
}

abbrev pub is_leap : ℕ → Bool
is_leap y = (nat_beq (y % 4) 0 && not (nat_beq (y % 100) 0)) || nat_beq (y % 400) 0

abbrev pub year_length : ℕ → ℕ
year_length y = if is_leap y then 366 else 365

abbrev pub month_lengths : ℕ → List ℕ
month_lengths y =
    31 ∷ (if is_leap y then 29 else 28) ∷ 31 ∷ 30 ∷ 31 ∷ 30 ∷ 31 ∷ 31 ∷ 30 ∷ 31 ∷ 30 ∷ 31 ∷ []

-- The year in which a day falls that comes so many days after the first of January of a year, and its place
-- in that year. A year has more than one day, so that the number of days and one is enough fuel.
unfoldable pub year_of : (fuel : ℕ) → (year days : ℕ) → ℕ × ℕ
year_of zero y d = (y, d)
year_of (suc fuel) y d = elim (ltb d (year_length y)) [
  | true ↦ (y, d)
  | false ↦ year_of fuel (y + 1) (d - year_length y)
]

-- The month, counted on from a first one, and the place in it.
unfoldable pub month_of : List ℕ → (month days : ℕ) → ℕ × ℕ
month_of [] m d = (m, d)
month_of (l ∷ ls) m d = elim (ltb d l) [ true ↦ (m, d) | false ↦ month_of ls (m + 1) (d - l) ]

pub record Civil : Type 0 where
  pub year : ℕ
  pub month : ℕ
  pub day : ℕ
  pub hour : ℕ
  pub minute : ℕ
  pub second : ℕ
  pub millisecond : ℕ

unfoldable pub civil_of : (ms : ℕ) → Civil
unfolding year_of month_of
civil_of ms =
    let (y, d) = year_of (ms / 86_400_000 + 1) 1970 (ms / 86_400_000) in
    let (m, e) = month_of (month_lengths y) 1 d in
    record {
      year = y;
      month = m;
      day = e + 1;
      hour = ms / 3_600_000 % 24;
      minute = ms / 60_000 % 60;
      second = ms / 1000 % 60;
      millisecond = ms % 1000;
    }

abbrev pub decimals : ℕ → String
decimals n = to_string (pos n)

abbrev pub pad2 : ℕ → String
pad2 n = if ltb n 10 then append "0" (decimals n) else decimals n

abbrev pub pad3 : ℕ → String
pad3 n = if ltb n 100 then append "0" (pad2 n) else decimals n

abbrev pub pad4 : ℕ → String
pad4 n = if ltb n 1000 then append "0" (pad3 n) else decimals n

abbrev pub concatenated : List String → String
concatenated [] = ""
concatenated (s ∷ ss) = append s (concatenated ss)

unfoldable pub time_from_millis : (ms : ℕ) → String
unfolding civil_of to_string
time_from_millis ms =
    let c = civil_of ms in
    concatenated (
      pad4 c.year
      ∷ "-"
      ∷ pad2 c.month
      ∷ "-"
      ∷ pad2 c.day
      ∷ " "
      ∷ pad2 c.hour
      ∷ ":"
      ∷ pad2 c.minute
      ∷ ":"
      ∷ pad2 c.second
      ∷ "."
      ∷ pad3 c.millisecond
      ∷ "+00"
      ∷ [])
