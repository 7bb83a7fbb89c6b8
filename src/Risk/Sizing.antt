-- ===== src/Risk/Sizing.antt =====
-- strategy/risk/position_sizing.py
use momentum_system.Prelude.{◌||◌, Option, none, some, if◌then◌else◌}
use momentum_system.Prelude.Int.{ℤ, pos, ltb_ℤ, leb_ℤ, min_ℤ, max_ℤ}
use momentum_system.Float.{
  Float, Real, lit, nought, one, ◌⊖◌, ◌⊗◌, ◌⊘◌, ◌<?◌, ◌≤?◌, ◌=?◌, fmin, fabs,
}

pub record PositionSizingConfig (R : Type 0) : Type 0 where
  pub risk_per_trade_pct : R
  pub default_equity : R

pub record PositionSizeResult (R : Type 0) : Type 0 where
  pub position_size : ℤ
  pub dollar_amount : R
  pub risk_amount : R

module _ ⦃n : Float⦄ where
  unfoldable pub rank_risk_factor : ℤ → ℤ → Real
  rank_risk_factor rank top_n =
      if leb_ℤ top_n (pos 0) || leb_ℤ rank (pos 0)
      then one
      else if ltb_ℤ top_n rank
      then nought
      else if leb_ℤ rank (pos 1)
      then one
      else lit 1 2

  -- `equity or config.default_equity`
  abbrev or_default : Option Real → Real → Real
  or_default none d = d
  or_default (some x) d = if x =? nought then d else x

  -- the dollar risk to size by: the percentage budget, under the absolute ceiling if there is one
  unfoldable pub risk_budget : Option Real → PositionSizingConfig Real → Option Real → Real
  risk_budget equity config none =
      or_default equity config.default_equity ⊗ config.risk_per_trade_pct
  risk_budget equity config (some cap) =
      let budget = or_default equity config.default_equity ⊗ config.risk_per_trade_pct in
      if nought <? cap then fmin budget cap else budget

  unfoldable pub capped_by_value : Option Real → Real → ℤ → ℤ
  capped_by_value none entry_price size = size
  capped_by_value (some value) entry_price size =
      if nought <? value then min_ℤ size (n.trunc (value ⊘ entry_price)) else size

  unfoldable pub capped_by_shares : Option ℤ → ℤ → ℤ
  capped_by_shares none size = size
  capped_by_shares (some shares) size = if leb_ℤ (pos 0) shares then min_ℤ size shares else size

  unfoldable pub calculate_position_size :
      Real
      → Real
      → Option Real
      → PositionSizingConfig Real
      → Option Real
      → Option ℤ
      → Option Real
      → PositionSizeResult Real
  unfolding risk_budget capped_by_value capped_by_shares
  calculate_position_size entry_price stop_loss_price equity config max_position_value max_shares
        max_risk_dollars =
      let risk_per_share = fabs (entry_price ⊖ stop_loss_price) in
      let by_risk = n.trunc (risk_budget equity config max_risk_dollars ⊘ risk_per_share) in
      let by_value = capped_by_value max_position_value entry_price by_risk in
      let size = max_ℤ (pos 0) (capped_by_shares max_shares by_value) in
      if (risk_per_share ≤? nought) || (entry_price ≤? nought)
      then record { position_size = pos 0; dollar_amount = nought; risk_amount = nought }
      else record {
        position_size = size;
        dollar_amount = n.of_int size ⊗ entry_price;
        risk_amount = n.round (n.of_int size ⊗ risk_per_share) 2;
      }
