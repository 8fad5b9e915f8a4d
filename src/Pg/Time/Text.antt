-- ===== src/Pg/Time/Text.antt =====
-- The text of a timestamp, read back as PostgreSQL reads it: "YYYY-MM-DD hh:mm:ss.mmm+00", in UTC.
use native.Mathlib.Decide.{dec_lt}
use fronius_bridge.Prelude.{
  ℕ, zero, suc, ◌+◌, ◌-◌, ◌*◌, ◌<◌, ◌≤◌, ◌≡◌, refl, ap, ◌∙◌, String, append, Option, some, arith,
}
use fronius_bridge.Pg.Time.{Civil, civil_of, month_lengths, pad2, pad3, time_from_millis}
use fronius_bridge.Pg.Time.Instant.{
  IsCivil, instant, days_before, days_before-next, civil_of-instant, length_after, days_of_months,
}
use fronius_bridge.Pg.Time.Digits.{digits, mark, ended, single, read3, read4, read_mark, read_field}

abbrev read_zone : Civil → String → Option Civil
read_zone c s = mark b'+' s λ s. mark b'0' s λ s. mark b'0' s (ended c)

abbrev read_millisecond : Civil → String → Option Civil
read_millisecond c s = digits 3 0 s λ n. read_zone (record c { millisecond = n })

abbrev read_second : Civil → String → Option Civil
read_second c s = digits 2 0 s λ n s. mark b'.' s (read_millisecond (record c { second = n }))

abbrev read_minute : Civil → String → Option Civil
read_minute c s = digits 2 0 s λ n s. mark b':' s (read_second (record c { minute = n }))

abbrev read_hour : Civil → String → Option Civil
read_hour c s = digits 2 0 s λ n s. mark b':' s (read_minute (record c { hour = n }))

abbrev read_day : Civil → String → Option Civil
read_day c s = digits 2 0 s λ n s. mark b' ' s (read_hour (record c { day = n }))

abbrev read_month : Civil → String → Option Civil
read_month c s = digits 2 0 s λ n s. mark b'-' s (read_day (record c { month = n }))

abbrev blank : Civil
blank = record { year = 0; month = 0; day = 0; hour = 0; minute = 0; second = 0; millisecond = 0 }

abbrev pub read_timestamp : String → Option Civil
read_timestamp s = digits 4 0 s λ n s. mark b'-' s (read_month (record blank { year = n }))

days_before_mono : (k y : ℕ) → days_before y ≤ days_before (k + y)
unfolding days_before
days_before_mono zero y = omega arith
days_before_mono (suc k) y =
    omega (arith, days_before_mono k y, days_before-next (k + y) (suc k + y) (omega arith))

-- The start of the year 10000, in milliseconds.
abbrev pub end_of_years : ℕ
end_of_years = 253_402_300_800_000

days_before-bound :
    (y d ms : ℕ)
    → (days_before y + d) * 86_400_000 ≤ days_before 1970 * 86_400_000 + ms
    → ms < end_of_years
    → y < 10000
unfolding days_before
days_before-bound y d ms e h = elim (dec_lt y 10000) [
  | yes lt ↦ lt
  | no ge ↦
      let over = days_before_mono (y - 10000) 10000 in
      let same = ap days_before {x = y - 10000 + 10000} {y = y} (omega arith) in
      absurd (omega arith)
]

year-lt :
    (c : Civil) (ms : ℕ)
    → instant c ≡ days_before 1970 * 86_400_000 + ms
    → ms < end_of_years
    → c.year < 10000
year-lt c ms e h =
    days_before-bound c.year (days_of_months (month_lengths c.year) (c.month - 1) + (c.day - 1)) ms
      (omega (arith, e)) h

day-lt : (y m d : ℕ) → d ≤ length_after (month_lengths y) m → d < 100
unfolding length_after
day-lt y zero d h = omega arith
day-lt y (suc zero) d h = ground arith
day-lt y (suc (suc zero)) d h = omega arith
day-lt y (suc (suc (suc zero))) d h = omega arith
day-lt y (suc (suc (suc (suc zero)))) d h = omega arith
day-lt y (suc (suc (suc (suc (suc zero))))) d h = omega arith
day-lt y (suc (suc (suc (suc (suc (suc zero)))))) d h = omega arith
day-lt y (suc (suc (suc (suc (suc (suc (suc zero))))))) d h = omega arith
day-lt y (suc (suc (suc (suc (suc (suc (suc (suc zero)))))))) d h = omega arith
day-lt y (suc (suc (suc (suc (suc (suc (suc (suc (suc zero))))))))) d h = omega arith
day-lt y (suc (suc (suc (suc (suc (suc (suc (suc (suc (suc zero)))))))))) d h = omega arith
day-lt y (suc (suc (suc (suc (suc (suc (suc (suc (suc (suc (suc zero))))))))))) d h = omega arith
day-lt y (suc (suc (suc (suc (suc (suc (suc (suc (suc (suc (suc (suc m)))))))))))) d h = omega arith

timestamp-read :
    (ms : ℕ)
    → let c = civil_of ms in
      c.year < 10000 → IsCivil c → read_timestamp (time_from_millis ms) ≡ some c
unfolding single time_from_millis
timestamp-read ms y (_, month, _, day, hour, minute, second, milli) =
    let c = civil_of ms in
    let c1 = record blank { year = c.year } in
    let c2 = record c1 { month = c.month } in
    let c3 = record c2 { day = c.day } in
    let c4 = record c3 { hour = c.hour } in
    let c5 = record c4 { minute = c.minute } in
    let c6 = record c5 { second = c.second } in
    let s7 = append "+00" "" in
    let s6 = append (pad3 c.millisecond) s7 in
    let s5 = append (pad2 c.second) (append "." s6) in
    let s4 = append (pad2 c.minute) (append ":" s5) in
    let s3 = append (pad2 c.hour) (append ":" s4) in
    let s2 = append (pad2 c.day) (append " " s3) in
    let s1 = append (pad2 c.month) (append "-" s2) in
    read4 c.year (append "-" s1) (λ n s. mark b'-' s (read_month (record blank { year = n }))) y
    ∙ read_mark "-" b'-' s1 (read_month c1) refl
    ∙ read_field "-" b'-' (λ n. read_day (record c1 { month = n })) c.month s2 refl (omega arith)
    ∙ read_field " " b' ' (λ n. read_hour (record c2 { day = n })) c.day s3 refl
        (day-lt c.year (c.month - 1) c.day day)
    ∙ read_field ":" b':' (λ n. read_minute (record c3 { hour = n })) c.hour s4 refl (omega arith)
    ∙ read_field ":" b':' (λ n. read_second (record c4 { minute = n })) c.minute s5 refl
        (omega arith)
    ∙ read_field "." b'.' (λ n. read_millisecond (record c5 { second = n })) c.second s6 refl
        (omega arith)
    ∙ read3 c.millisecond s7 (λ n. read_zone (record c6 { millisecond = n })) milli

-- For a time before the year 10000: the timestamp of a row, in its format read back as UTC field by field, is a
-- date and a time that there are in the calendar, and they are the instant of the reading to the millisecond: so
-- many milliseconds after the start of 1970.
pub time_from_millis-read :
    (ms : ℕ)
    → ms < end_of_years
    → (c : Civil) × (read_timestamp (time_from_millis ms) ≡ some c)
      × IsCivil c
      × (instant c ≡ days_before 1970 * 86_400_000 + ms)
time_from_millis-read ms h =
    let (good, same) = civil_of-instant ms in
    (civil_of ms, timestamp-read ms (year-lt (civil_of ms) ms same h) good, good, same)
