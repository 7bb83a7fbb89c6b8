-- ===== src/Risk/Guards.antt =====
-- strategy/risk/entry_cuts.py and runtime/halt_guard.py
use momentum_system.Prelude.{
  ℕ, ◌+◌, ◌*◌, ◌<◌, ◌≡◌, Bool, true, false, ◌&&◌, ◌||◌, Option, none, some, ltb, leb, ◌==◌,
  if◌then◌else◌, arith,
}
use momentum_system.Prelude.Int.{ℤ, pos, sub_ℕ, leb_ℤ}
use momentum_system.Float.{Float, Real, nought, ◌≤?◌}

-- datetime.time to the minute's parts; a trigger time may have seconds
pub record TimeOfDay : Type 0 where
  pub hour : ℕ
  pub minute : ℕ
  pub second : ℕ
  pub microsecond : ℕ

-- `<` of datetime.time, on the fields in order
unfoldable pub before : TimeOfDay → TimeOfDay → Bool
before s t =
    ltb s.hour t.hour
    || ((s.hour == t.hour)
        && (ltb s.minute t.minute
            || ((s.minute == t.minute)
                && (ltb s.second t.second
                    || ((s.second == t.second) && ltb s.microsecond t.microsecond)))))

pub record EntryCutoffConfig : Type 0 where
  pub no_new_entries_after : TimeOfDay
  pub minutes_past_cutoff_max : ℤ

-- The message is told by the number of minutes in it.
pub record EntryCutoffResult : Type 0 where
  pub passed : Bool
  pub minutes_past : Option ℤ

abbrev pub minute_of_day : TimeOfDay → ℕ
minute_of_day t = t.hour * 60 + t.minute

unfoldable pub check_entry_cutoff : TimeOfDay → EntryCutoffConfig → EntryCutoffResult
unfolding before
check_entry_cutoff trigger_time config =
    let cutoff = config.no_new_entries_after in
    let past = sub_ℕ (minute_of_day trigger_time) (minute_of_day cutoff) in
    if before trigger_time cutoff
    then record { passed = true; minutes_past = none }
    else record { passed = leb_ℤ past config.minutes_past_cutoff_max; minutes_past = some past }

-- An entry passes the cutoff exactly while its minute is at most the allowance past the cutoff's
-- minute, for an allowance of zero or more; the seconds do not matter.
pub check_entry_cutoff-window :
    (t c : TimeOfDay) (allowance : ℕ)
    → t.minute < 60
    → c.minute < 60
    → (check_entry_cutoff t
        (record { no_new_entries_after = c; minutes_past_cutoff_max = pos allowance })).passed
      ≡ leb (minute_of_day t) (minute_of_day c + allowance)
unfolding check_entry_cutoff
check_entry_cutoff-window t c allowance h k = ground arith

module _ ⦃n : Float⦄ where
  unfoldable pub is_halt_gap : Option Real → Option Real → Real → Bool
  is_halt_gap none global_age_s gap_seconds = false
  is_halt_gap (some sym_age) none gap_seconds = false
  is_halt_gap (some sym_age) (some global_age) gap_seconds =
      if gap_seconds ≤? nought
      then false
      else if sym_age ≤? gap_seconds
      then false
      else global_age ≤? gap_seconds
