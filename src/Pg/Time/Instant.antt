-- ===== src/Pg/Time/Instant.antt =====
-- That the timestamp of a row is the instant of the reading.
use fronius_bridge.Prelude.{
  ℕ, zero, suc, ◌+◌, ◌-◌, ◌*◌, ◌/◌, ◌%◌, ◌<◌, ◌≤◌, ◌≡◌, refl, ap, Bool, true, false, List, [], ◌∷◌,
  ltb, length, arith,
}
use fronius_bridge.Pg.Time.{year_length, month_lengths, year_of, month_of, Civil, civil_of}

-- The days from the first of January of the year 0 to that of a year, by the rule of the Gregorian calendar:
-- every fourth year is longer by a day, but not every hundredth, and yet every four hundredth.
unfoldable pub days_before : (year : ℕ) → ℕ
days_before y = 365 * y + (y + 3) / 4 + (y + 399) / 400 - (y + 99) / 100

-- The days of the first months of a year, and the length of the month after them.
unfoldable pub days_of_months : List ℕ → (months : ℕ) → ℕ
days_of_months ls zero = 0
days_of_months [] (suc k) = 0
days_of_months (l ∷ ls) (suc k) = l + days_of_months ls k

unfoldable pub length_after : List ℕ → (months : ℕ) → ℕ
length_after [] k = 0
length_after (l ∷ ls) zero = l
length_after (l ∷ ls) (suc k) = length_after ls k

elim-split :
    {A : Type 0} (P : A → Type 0) (b : Bool) (x y : A)
    → (b ≡ true → P x)
    → (b ≡ false → P y)
    → P (elim b [ true ↦ x | false ↦ y ])
elim-split P true x y p q = p refl
elim-split P false x y p q = q refl

year_length-pos : (y : ℕ) → 1 ≤ year_length y
year_length-pos y = ground arith

-- A year and a place in it that together are so many days after the first of January of the year 0.
abbrev IsDay : (total : ℕ) → ℕ × ℕ → Type 0
IsDay total (y, d) = (days_before y + d ≡ total) × (d < year_length y)

pub days_before-next : (y z : ℕ) → z ≡ suc y → days_before z ≡ days_before y + year_length y
unfolding days_before
days_before-next y z e = ground arith

year_of-IsDay : (fuel y d n : ℕ) → days_before y + d ≡ n → d < fuel → IsDay n (year_of fuel y d)
unfolding year_of
year_of-IsDay zero y d n e h = absurd (omega arith)
year_of-IsDay (suc fuel) y d n e h =
    elim-split (IsDay n) (ltb d (year_length y)) (y, d) (year_of fuel (y + 1) (d - year_length y))
      (λ t. (e, ground arith))
      (λ f.
        let one = year_length-pos y in
        let long = not_below d (year_length y) f in
        year_of-IsDay fuel (y + 1) (d - year_length y) n (next_year y d n long e) (omega arith))
  where
    not_below : (a b : ℕ) → ltb a b ≡ false → b ≤ a
    not_below a b f = ground arith

    next_year :
        (y d n : ℕ)
        → year_length y ≤ d
        → days_before y + d ≡ n
        → days_before (y + 1) + (d - year_length y) ≡ n
    next_year y d n long e = let b = days_before-next y (y + 1) (omega arith) in omega arith

abbrev total : List ℕ → ℕ
total [] = 0
total (l ∷ ls) = l + total ls

-- So many months after the first, and a place in that month.
abbrev IsMonth : List ℕ → (first days : ℕ) → ℕ × ℕ → Type 0
IsMonth ls first d (m, e) =
    (k : ℕ) × (m ≡ first + k)
    × (k < length ls)
    × (days_of_months ls k + e ≡ d)
    × (e < length_after ls k)

month_of-IsMonth :
    (ls : List ℕ) (first d : ℕ) → d < total ls → IsMonth ls first d (month_of ls first d)
unfolding month_of days_of_months length_after
month_of-IsMonth [] first d h = absurd (omega arith)
month_of-IsMonth (l ∷ ls) first d h =
    elim-split (IsMonth (l ∷ ls) first d) (ltb d l) (first, d) (month_of ls (first + 1) (d - l))
      (λ t. (0, omega arith, omega arith, omega arith, ground arith))
      (λ f.
        let (k, a, b, c, e) = month_of-IsMonth ls (first + 1) (d - l) (ground arith) in
        (suc k, omega arith, omega arith, ground arith, e))

total-months : (y : ℕ) → total (month_lengths y) ≡ year_length y
total-months y = ground arith

-- The milliseconds from the first of January of the year 0 to a time.
abbrev pub instant : Civil → ℕ
instant c =
    (days_before c.year + days_of_months (month_lengths c.year) (c.month - 1) + (c.day - 1))
      * 86_400_000
    + (c.hour * 3_600_000 + c.minute * 60_000 + c.second * 1000 + c.millisecond)

-- A date and a time of day that there is.
abbrev pub IsCivil : Civil → Type 0
IsCivil c =
    (1 ≤ c.month)
    × (c.month ≤ 12)
    × (1 ≤ c.day)
    × (c.day ≤ length_after (month_lengths c.year) (c.month - 1))
    × (c.hour < 24)
    × (c.minute < 60)
    × (c.second < 60)
    × (c.millisecond < 1000)

time_of_day :
    (ms : ℕ)
    → ms / 86_400_000 * 86_400_000
        + (ms / 3_600_000 % 24 * 3_600_000
            + ms / 60_000 % 60 * 60_000
            + ms / 1000 % 60 * 1000
            + ms % 1000)
      ≡ ms
time_of_day ms = omega arith

-- The date and the time that a row's timestamp gives are those that there are in the calendar, and they are
-- the instant of the reading, to the millisecond: so many milliseconds after the start of 1970.
pub civil_of-instant :
    (ms : ℕ) → IsCivil (civil_of ms) × (instant (civil_of ms) ≡ days_before 1970 * 86_400_000 + ms)
unfolding civil_of
civil_of-instant ms =
    let days = ms / 86_400_000 in
    let yd = year_of (days + 1) 1970 days in
    let (a, b) = year_of-IsDay (days + 1) 1970 days (days_before 1970 + days) refl (omega arith) in
    let t = total-months yd.0 in
    let (k, m, l, c, e) = month_of-IsMonth (month_lengths yd.0) 1 yd.1 (omega arith) in
    let clock = time_of_day ms in
    let md = month_of (month_lengths yd.0) 1 yd.1 in
    let back : md.0 - 1 ≡ k = omega arith in
    let fits = ap (length_after (month_lengths yd.0)) back in
    let sum = ap (days_of_months (month_lengths yd.0)) back in
    (
      (
        omega arith,
        omega arith,
        omega arith,
        omega arith,
        omega arith,
        omega arith,
        omega arith,
        omega arith,
      ),
      omega arith,
    )
