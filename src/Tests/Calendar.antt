-- ===== src/Tests/Calendar.antt =====
-- runtime/market_calendar.py around Thanksgiving 2026.
use momentum_system.Prelude.{ℕ, ◌+◌, ◌≤◌, ◌<◌, ◌≡◌, refl, true, some, arith}
use momentum_system.Calendar.{
  DateTime, date, is_trading_day, next_trading_day, days_to_next_session, is_regular_hours,
  session_close_hm, eod_flatten_status,
}
use momentum_system.Calendar.Sessions.{next_trading_day_total}
use momentum_system.Calendar.Flatten.{eod_flatten-in_session, eod_flatten-covers}

-- Thursday 26 November 2026 is a holiday, and the Friday closes at 13:00.
abbrev wednesday : ℕ
wednesday = date 2026 11 25

abbrev half_day : DateTime
half_day = record { day = date 2026 11 27; hour = 12; minute = 56 }

thanksgiving : next_trading_day wednesday ≡ some (date 2026 11 27)
unfolding next_trading_day is_trading_day
thanksgiving = refl

next_trading_day_total_example :
    (r : ℕ) × (next_trading_day wednesday ≡ some r)
    × (is_trading_day r ≡ true)
    × (wednesday < r)
    × (r ≤ wednesday + 5)
next_trading_day_total_example = next_trading_day_total wednesday

flattens : (eod_flatten_status half_day 5 20).0 ≡ true
unfolding eod_flatten_status session_close_hm is_trading_day days_to_next_session
flattens = refl

eod_flatten-in_session_example : is_regular_hours half_day ≡ true
eod_flatten-in_session_example =
    eod_flatten-in_session half_day 5 20 (omega arith) (omega arith) (omega arith) flattens

half_day_close : session_close_hm (date 2026 11 27) ≡ some (13, 0)
unfolding session_close_hm
half_day_close = refl

open_now : is_regular_hours half_day ≡ true
unfolding is_regular_hours session_close_hm
open_now = refl

eod_flatten-covers_example : (eod_flatten_status half_day 5 20).0 ≡ true
eod_flatten-covers_example =
    eod_flatten-covers half_day 5 20 13 0 (omega arith) open_now half_day_close (omega arith)
