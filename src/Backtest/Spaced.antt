-- ===== src/Backtest/Spaced.antt =====
-- strategy/backtest/engine.py: the loop returns, and its trades do not overlap.
use momentum_system.Prelude.{
  ℕ, zero, suc, ◌+◌, ◌-◌, ◌%◌, ◌≤◌, ◌<◌, ◌≡◌, refl, String, false, Option, none, some, inl, inr,
  List, [], ◌∷◌, ◌++◌, foldl, map, length, drop, ltb, ◌==◌, ltb→lt, length-append, Bool-cases,
  arith,
}
use momentum_system.Prelude.Int.{pos, leb_ℤ}
use momentum_system.Float.{Float, Real, nought, ◌⊕◌, ◌⊖◌, ◌⊗◌, ◌≤?◌}
use momentum_system.Columns.{Columns}
use momentum_system.Risk.Sizing.{calculate_position_size}
use momentum_system.Exits.Data.{is_empty}
use momentum_system.Exits.Backtest.{simulate_exit}
use momentum_system.Setups.Yields.{Any, Yields, yields, get_elem?-Yields}
use momentum_system.Evaluation.Data.{Session, rows_of}
use momentum_system.Evaluation.Result.{Setup}
use momentum_system.Evaluation.Returns.{length-map, evaluate_setup-Yields}
use momentum_system.Backtest.Trades.{
  Trade, BacktestResult, Engine, Visit, skipped, no_signal, unfilled, traded, exit_pos, next_index,
  stamp_of, window, eval_time, fill, fill_at, bar_of, default_sizing,
}
use momentum_system.Backtest.Engine.{
  first_ready, act, context, count_visit, rated, visit, run_from, empty_result, run,
}

exit_pos-bounds :
    (entry len after idx : ℕ)
    → entry < len
    → (entry ≤ exit_pos entry len after idx) × (exit_pos entry len after idx < len)
unfolding exit_pos
exit_pos-bounds entry len after idx h = ground arith

module _ ⦃n : Float⦄ (s : Session Real) where
  -- A trade that the round at the bar `i` enters: it fills on the next bar, buys something, and is
  -- left on the bar `at`, which is there.
  abbrev pub Traded : ℕ → Trade Real → ℕ → Type 0
  Traded i t at =
      (t.entry_index ≡ i + 1)
      × (leb_ℤ t.quantity (pos 0) ≡ false)
      × (i + 1 ≤ at)
      × (at < length s.bars)
      × (stamp_of s at ≡ some t.exit_time)

  -- The trades of a run, the last of which is left on the bar before the bar `k`.
  pub data Spaced : ℕ → List (Trade Real) → Type 0 where
    untraded : (k : ℕ) → Spaced k []
    followed_by :
        (k i at : ℕ) (ts : List (Trade Real)) (t : Trade Real)
        → Spaced k ts
        → k ≤ i
        → Traded i t at
        → Spaced (at + 1) (ts ++ t ∷ [])

  abbrev pub Placed : ℕ → Visit Real → Type 0
  Placed i skipped = Unit
  Placed i no_signal = Unit
  Placed i unfilled = Unit
  Placed i (traded t at) = Traded i t at

  stamp_of-Yields : (i : ℕ) → i < length s.bars → Yields Any (stamp_of s i)
  unfolding stamp_of
  stamp_of-Yields i h = let b = get_elem?-Yields s.bars i h in rw b.returns (yields _ tt)

  eval_time-Yields : (e : Engine Real) (i : ℕ) → i < length s.bars → Yields Any (eval_time e s i)
  unfolding eval_time
  eval_time-Yields e i h = let b = get_elem?-Yields s.bars i h in rw b.returns (yields _ tt)

  fill_at-Yields :
      (e : Engine Real) (symbol : String) (i : ℕ) (setup : Setup Real) (raw_entry : Real)
      → i + 1 < length s.bars
      → Yields (Placed i) (fill_at e s symbol i setup raw_entry)
  unfolding fill_at
  fill_at-Yields e symbol i setup raw_entry h =
      let stop = setup.stop_loss_price in
      let entry = raw_entry ⊕ raw_entry ⊗ e.bt.base_spread_pct in
      let quantity =
        (calculate_position_size raw_entry stop (some e.equity) default_sizing none none
          none).position_size in
      let after = drop (i + 2) (rows_of s) in
      let res = simulate_exit entry stop (map bar_of after) e.exit_config in
      let at = exit_pos (i + 1) (length s.bars) (length after) res.exit_index in
      let inside = exit_pos-bounds (i + 1) (length s.bars) (length after) res.exit_index h in
      let entered = stamp_of-Yields (i + 1) h in
      let left = stamp_of-Yields at inside.1 in
      elim (Bool-cases (leb_ℤ quantity (pos 0))) [
        | inl f ↦ rw f (yields _ tt)
        | inr f ↦ elim (Bool-cases ((entry ⊖ stop) ≤? nought)) [
          | inl g ↦ rw (f, g) (yields _ tt)
          | inr g ↦
              rw (f, g, entered.returns, left.returns)
                (yields _ (refl, f, inside.0, inside.1, left.returns))
        ]
      ]

  fill-Yields :
      (e : Engine Real) (symbol : String) (i : ℕ) (setup : Setup Real)
      → i + 1 < length s.bars
      → Yields (Placed i) (fill e s symbol i setup)
  unfolding fill
  fill-Yields e symbol i setup h =
      let rows = length-map (λ b. b.row) s.bars in
      let signal = get_elem?-Yields (rows_of s) i (omega (arith, rows)) in
      let next = get_elem?-Yields (rows_of s) (i + 1) (omega (arith, rows)) in
      rw (signal.returns, next.returns) (fill_at-Yields e symbol i setup _ h)

  act-Yields :
      (e : Engine Real) (symbol : String) (i : ℕ) (setup : Option (Setup Real))
      → i + 1 < length s.bars
      → Yields (Placed i) (act e s symbol i setup)
  unfolding act
  act-Yields e symbol i none h = yields _ tt
  act-Yields e symbol i (some setup) h = fill-Yields e symbol i setup h

  module _ (pd : Columns) (enabled : List String) (e : Engine Real) (symbol : String)
      (previous_close avg_daily_volume : Option Real) where
    visit-Yields :
        (i : ℕ)
        → 0 < e.eval_every
        → i + 1 < length s.bars
        → Yields (Placed i) (visit pd enabled e s symbol previous_close avg_daily_volume i)
    unfolding visit
    visit-Yields i h inside =
        let nonzero : (e.eval_every == 0) ≡ false = ground arith in
        let time = eval_time-Yields e i (omega arith) in
        let found =
          evaluate_setup-Yields pd enabled (context e previous_close avg_daily_volume time.value)
            (window s i) in
        elim (Bool-cases (i % e.eval_every == 0)) [
          | inr skip ↦ rw (nonzero, skip) (yields _ tt)
          | inl due ↦
              rw (nonzero, due, time.returns, found.returns)
                (act-Yields e symbol i (first_ready found.value) inside)
        ]

    -- the profits in the order of the trades, added up
    abbrev pub pnl_of : List (Trade Real) → Real
    pnl_of ts = foldl (λ total t. total ⊕ t.realized_pnl) nought ts

    -- The trades do not overlap, the profit is theirs, and no more are counted than were evaluated.
    abbrev pub Kept : BacktestResult Real → Type 0
    Kept r =
        ((k : ℕ) × Spaced k r.trades)
        × (r.total_pnl ≡ pnl_of r.trades)
        × (length r.trades ≤ r.signals)
        × (r.signals ≤ r.evaluations)

    -- what holds before the round at the bar `i`
    abbrev pub Before : ℕ → BacktestResult Real → Type 0
    Before i r =
        ((k : ℕ) × (k ≤ i) × Spaced k r.trades)
        × (r.total_pnl ≡ pnl_of r.trades)
        × (length r.trades ≤ r.signals)
        × (r.signals ≤ r.evaluations)

    foldl-append :
        {A B : Type 0} (f : B → A → B) (b : B) (xs : List A) (x : A)
        → foldl f b (xs ++ x ∷ []) ≡ f (foldl f b xs) x
    foldl-append f b [] x = refl
    foldl-append f b (y ∷ ys) x = foldl-append f (f b y) ys x

    count_visit-Before :
        (i : ℕ) (r : BacktestResult Real) (v : Visit Real)
        → Placed i v
        → Before i r
        → Before (next_index i v) (count_visit r v)
    unfolding count_visit next_index
    count_visit-Before i r skipped p ((k, le, spaced), pnl, few, fewer) =
        ((k, omega arith, spaced), pnl, few, fewer)
    count_visit-Before i r no_signal p ((k, le, spaced), pnl, few, fewer) =
        ((k, omega arith, spaced), pnl, few, omega arith)
    count_visit-Before i r unfilled p ((k, le, spaced), pnl, few, fewer) =
        ((k, omega arith, spaced), pnl, omega arith, omega arith)
    count_visit-Before i r (traded t at) p ((k, le, spaced), pnl, few, fewer) = (
      (at + 1, omega arith, followed_by k i at r.trades t spaced le p),
      rw (foldl-append (λ total t. total ⊕ t.realized_pnl) nought r.trades t, pnl),
      omega (arith, length-append r.trades (t ∷ [])),
      omega arith,
    )

    moves_on : (i : ℕ) (v : Visit Real) → Placed i v → i < next_index i v
    unfolding next_index
    moves_on i skipped p = omega arith
    moves_on i no_signal p = omega arith
    moves_on i unfilled p = omega arith
    moves_on i (traded t at) (_, _, le, _, _) = omega arith

    run_from-Kept :
        (fuel i : ℕ) (r : BacktestResult Real)
        → 0 < e.eval_every
        → length s.bars - i < fuel
        → Before i r
        → Yields Kept (run_from pd enabled e s symbol previous_close avg_daily_volume fuel i r)
    unfolding run_from
    run_from-Kept zero i r h enough b = ground arith
    run_from-Kept (suc fuel) i r h enough b = elim (Bool-cases (ltb (i + 1) (length s.bars))) [
      | inr f ↦ rw f (yields r ((b.0.0, b.0.2), b.1, b.2, b.3))
      | inl f ↦
          let v = visit-Yields i h (ltb→lt _ _ f) in
          let on = moves_on i v.value v.holds in
          rw (f, v.returns)
            (run_from-Kept fuel (next_index i v.value) (count_visit r v.value) h (ground arith)
              (count_visit-Before i r v.value v.holds b))
    ]

    rated-Kept : (r : BacktestResult Real) → Kept r → Kept (rated r)
    unfolding rated
    rated-Kept r k = elim (Bool-cases (is_empty r.trades)) [ inl f ↦ rw f k | inr f ↦ rw f k ]

    -- A backtest with a cadence of one bar or more returns, whatever the bars of finite numbers: each
    -- round of the loop moves on, and nothing in it raises, where no number overflows. Its trades do not overlap: each fills on a bar after that
    -- on which the trade before it was left, buys a share at least, and is left on a bar of the
    -- session, on which its exit time is read. The total profit is the sum of theirs, in their
    -- order, and there are at most as many trades as signals, and signals as evaluations.
    pub run-Kept :
        0 < e.eval_every → Yields Kept (run pd enabled e s symbol previous_close avg_daily_volume)
    unfolding run
    run-Kept h =
        let start = empty_result pd enabled e s symbol previous_close avg_daily_volume in
        let looped =
          run_from-Kept (length s.bars + 1) e.warmup_bars start h (omega arith)
            ((0, omega arith, untraded 0), refl, omega arith, omega arith) in
        rw looped.returns (yields _ (rated-Kept looped.value looped.holds))
