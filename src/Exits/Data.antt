-- ===== src/Exits/Data.antt =====
-- The dataclasses of strategy/exits.py.
use momentum_system.Prelude.{ℕ, String, Bool, true, false, not, List, [], ◌∷◌}
use momentum_system.Float.{Float, Real, nought, ◌=?◌}

-- One OHLC row of a frame of minute bars.
pub record Bar (R : Type 0) : Type 0 where
  pub open_price : R
  pub high : R
  pub low : R
  pub close : R

pub record ExitConfig (R : Type 0) : Type 0 where
  pub target_r : R
  pub breakeven_at_r : R
  pub breakeven_at_pct : R
  pub trail_mode : String
  pub trail_pct : R
  pub trail_after_r : R
  pub trail_r_step : R
  pub scale_out_r : R
  pub scale_out_pct : R
  pub first_red_exit : Bool
  pub profit_lock_tiers : List (R × R)
  pub catastrophe_pct : R
  pub catastrophe_risk_mult : R
  pub enforce_stop_grace_passes : ℕ
  pub default_trail_r_pct : R

pub data Reason : Type 0 where
  invalid breakeven trail_stop stop_loss scale_out target first_red session_end : Reason

pub record ExitFill (R : Type 0) : Type 0 where
  pub frac : R
  pub price : R
  pub reason : Reason

pub record ExitResult (R : Type 0) : Type 0 where
  pub r_multiple : R
  pub reason : Reason
  pub exit_index : ℕ
  pub fills : List (ExitFill R)

pub data Hold : Type 0 where
  hold trail first_red : Hold

pub record ExitDecision (R : Type 0) : Type 0 where
  pub desired_stop : R
  pub scale_out_frac : R
  pub exit_now : Bool
  pub reason : Hold

abbrev pub trail_prior_low : String
trail_prior_low = "prior_low"

abbrev pub trail_percent : String
trail_percent = "pct"

abbrev pub is_empty {ℓ} : {A : Type ℓ} → List A → Bool
is_empty [] = true
is_empty (x ∷ xs) = false

module _ ⦃n : Float⦄ where
  -- the truth value of a float
  abbrev pub truthy : Real → Bool
  truthy x = not (x =? nought)
