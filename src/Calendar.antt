-- ===== src/Calendar.antt =====
-- runtime/market_calendar.py: the NYSE trading calendar. A date is its proleptic Gregorian ordinal
-- (datetime.date.toordinal), in which a timedelta of days is an addition.
pub mod Sessions
pub mod Flatten
use momentum_system.Prelude.{
  ℕ, zero, suc, ◌+◌, ◌-◌, ◌*◌, ◌/◌, ◌%◌, max, Bool, true, false, not, ◌&&◌, ◌||◌, Option, none,
  some, List, [], ◌∷◌, ltb, leb, ◌==◌, if◌then◌else◌,
}

-- days before a month of a year that is not a leap year
abbrev days_before_month : ℕ → ℕ
days_before_month m =
    if leb m 1
    then 0
    else if m == 2
    then 31
    else if m == 3
    then 59
    else if m == 4
    then 90
    else if m == 5
    then 120
    else if m == 6
    then 151
    else if m == 7
    then 181
    else if m == 8
    then 212
    else if m == 9
    then 243
    else if m == 10
    then 273
    else if m == 11
    then 304
    else 334

abbrev is_leap : ℕ → Bool
is_leap y = (y % 4 == 0) && (not (y % 100 == 0) || (y % 400 == 0))

-- datetime.date(year, month, day)
abbrev pub date : ℕ → ℕ → ℕ → ℕ
date year month day =
    let y = year - 1 in
    y * 365
    + y / 4
    - y / 100
    + y / 400
    + days_before_month month
    + (if ltb 2 month && is_leap year then 1 else 0)
    + day

-- datetime.date.weekday: 0 is Monday
abbrev pub weekday : ℕ → ℕ
weekday d = (d + 6) % 7

abbrev pub holidays : List ℕ
holidays =
    date 2026 1 1
    ∷ date 2026 1 19
    ∷ date 2026 2 16
    ∷ date 2026 4 3
    ∷ date 2026 5 25
    ∷ date 2026 6 19
    ∷ date 2026 7 3
    ∷ date 2026 9 7
    ∷ date 2026 11 26
    ∷ date 2026 12 25
    ∷ date 2027 1 1
    ∷ date 2027 1 18
    ∷ date 2027 2 15
    ∷ date 2027 3 26
    ∷ date 2027 5 31
    ∷ date 2027 6 18
    ∷ date 2027 7 5
    ∷ date 2027 9 6
    ∷ date 2027 11 25
    ∷ date 2027 12 24
    ∷ []

abbrev pub early_closes : List ℕ
early_closes = date 2026 7 2 ∷ date 2026 11 27 ∷ date 2026 12 24 ∷ date 2027 11 26 ∷ []

-- `d in dates`
abbrev pub mem : ℕ → List ℕ → Bool
mem d [] = false
mem d (x ∷ xs) = (d == x) || mem d xs

unfoldable pub is_market_holiday : ℕ → Bool
is_market_holiday d = mem d holidays

unfoldable pub is_early_close : ℕ → Bool
is_early_close d = mem d early_closes

unfoldable pub is_trading_day : ℕ → Bool
unfolding is_market_holiday
is_trading_day d = ltb (weekday d) 5 && not (is_market_holiday d)

unfoldable pub session_close_hm : ℕ → Option (ℕ × ℕ)
unfolding is_trading_day is_early_close
session_close_hm d =
    if not (is_trading_day d) then none else if is_early_close d then some (13, 0) else some (16, 0)

-- A local (ET) wall-clock time.
pub record DateTime : Type 0 where
  pub day : ℕ
  pub hour : ℕ
  pub minute : ℕ

-- `<` and `<=` of (hour, minute) pairs
abbrev hm_lt : ℕ × ℕ → ℕ × ℕ → Bool
hm_lt (h, m) (k, l) = ltb h k || ((h == k) && ltb m l)

abbrev hm_le : ℕ × ℕ → ℕ × ℕ → Bool
hm_le (h, m) (k, l) = ltb h k || ((h == k) && leb m l)

unfoldable pub is_regular_hours : DateTime → Bool
is_regular_hours t = elim (session_close_hm t.day) [
  | none ↦ false
  | some close ↦ hm_le (9, 30) (t.hour, t.minute) && hm_lt (t.hour, t.minute) close
]

-- the `while` of `next_trading_day`, on fuel
unfoldable pub next_from : ℕ → ℕ → Option ℕ
next_from zero d = none
next_from (suc fuel) d =
    let rest = next_from fuel (d + 1) in if is_trading_day d then some d else rest

-- Six rounds are enough.
unfoldable pub next_trading_day : ℕ → Option ℕ
unfolding next_from
next_trading_day d = next_from 6 (d + 1)

unfoldable pub days_to_next_session : ℕ → Option ℕ
unfolding next_trading_day
days_to_next_session d = elim (next_trading_day d) [ none ↦ none | some next ↦ some (next - d) ]

abbrev more_than_one : Option ℕ → Bool
more_than_one none = false
more_than_one (some k) = ltb 1 k

-- The leads are minutes; the start of the window is compared without a subtraction.
unfoldable pub eod_flatten_status : DateTime → ℕ → ℕ → Bool × Bool
eod_flatten_status t normal_lead pre_closure_lead =
    let pre_closure = more_than_one (days_to_next_session t.day) in
    let lead = if pre_closure then max normal_lead pre_closure_lead else normal_lead in
    let now = t.hour * 60 + t.minute in
    elim (session_close_hm t.day) [
      | none ↦ (false, false)
      | some (h, m) ↦ (leb (h * 60 + m) (now + lead) && ltb now (h * 60 + m), pre_closure)
    ]
