-- ===== src/Calendar/Flatten.antt =====
-- `eod_flatten_status` of runtime/market_calendar.py against the regular session.
use momentum_system.Prelude.{◌+◌, ◌*◌, ◌≤◌, ◌<◌, ◌≡◌, true, none, some, ℕ, ◌⊎◌, inl, inr, arith}
use momentum_system.Calendar.{DateTime, session_close_hm, is_regular_hours, eod_flatten_status}

-- A time of day that a clock can show.
abbrev pub IsClockTime : DateTime → Type 0
IsClockTime t = (t.hour < 24) × (t.minute < 60)

close_cases :
    (d : ℕ)
    → (session_close_hm d ≡ none)
      ⊎ ((session_close_hm d ≡ some (13, 0)) ⊎ (session_close_hm d ≡ some (16, 0)))
unfolding session_close_hm
close_cases d = ground arith

-- With leads of at most 210 minutes, the flatten fires only while a regular session is open: never
-- on a weekend or a holiday, before the open, or at or after the close of a full or a half day.
pub eod_flatten-in_session :
    (t : DateTime) (normal_lead pre_closure_lead : ℕ)
    → IsClockTime t
    → normal_lead ≤ 210
    → pre_closure_lead ≤ 210
    → (eod_flatten_status t normal_lead pre_closure_lead).0 ≡ true
    → is_regular_hours t ≡ true
unfolding eod_flatten_status is_regular_hours
eod_flatten-in_session t normal pre clock a b h = elim (close_cases t.day) [
  | inl e ↦ ground arith
  | inr (inl e) ↦ rw (e, is_regular_hours) (ground arith)
  | inr (inr e) ↦ rw (e, is_regular_hours) (ground arith)
]

-- In the last minutes of every regular session, as many as the normal lead, the flatten fires.
pub eod_flatten-covers :
    (t : DateTime) (normal_lead pre_closure_lead h m : ℕ)
    → IsClockTime t
    → is_regular_hours t ≡ true
    → session_close_hm t.day ≡ some (h, m)
    → h * 60 + m ≤ t.hour * 60 + t.minute + normal_lead
    → (eod_flatten_status t normal_lead pre_closure_lead).0 ≡ true
unfolding eod_flatten_status is_regular_hours
eod_flatten-covers t normal pre h m clock open_now close late =
    rw (close, eod_flatten_status) (ground arith)
