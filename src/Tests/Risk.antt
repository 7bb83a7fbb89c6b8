-- ===== src/Tests/Risk.antt =====
-- strategy/risk on small inputs.
use momentum_system.Prelude.{◌≡◌, refl, inr, none, some, arith}
use momentum_system.Prelude.Int.{pos, ◌≤ℤ◌}
use momentum_system.Float.{Real}
use momentum_system.Risk.Sizing.{PositionSizingConfig, calculate_position_size, risk_budget}
use momentum_system.Risk.Guards.{TimeOfDay}
use momentum_system.Risk.Caps.{Fits, position_size-Fits, position_size-greatest}
use momentum_system.Tests.Fixed.{fixed}

-- 1% of 1000 dollars
abbrev config : PositionSizingConfig Real
config = record { risk_per_trade_pct = 100; default_equity = 10000000 }

-- ten dollars at a risk of ten cents a share are 100 shares; 150 dollars at 2 dollars cap them at 75
sized :
    (calculate_position_size 20000 19000 none config (some 1500000) none none).position_size
    ≡ pos 75
unfolding calculate_position_size
sized = refl

position_size-Fits_example :
    Fits 20000 19000 none config
      (some 1500000)
      none
      none
      (calculate_position_size 20000 19000 none config (some 1500000) none none).position_size
position_size-Fits_example =
    position_size-Fits 20000 19000 none config (some 1500000) none none refl refl
      (rw sized (omega arith))

position_size-greatest_example :
    let size =
      (calculate_position_size 20000 19000 none config (some 1500000) none none).position_size in
    (pos 0 ≤ℤ size) × (pos 70 ≤ℤ size)
unfolding risk_budget
position_size-greatest_example =
    position_size-greatest 20000 19000 none config (some 1500000) none none refl refl (pos 70)
      (omega arith, inr (omega arith), tt)

abbrev ten_thirty : TimeOfDay
ten_thirty = record { hour = 10; minute = 30; second = 0; microsecond = 0 }

abbrev ten_thirty_five : TimeOfDay
ten_thirty_five = record { hour = 10; minute = 35; second = 59; microsecond = 0 }
