-- ===== src/Trading/Outage.antt =====
-- trading_execution.py: `_daily_loss_breach` while the equity cannot be read, and after.
use momentum_system.Prelude.{ℕ, zero, suc, ◌≡◌, refl, false, ◌||◌, ◌&&◌, ltb, none, some, arith}
use momentum_system.Prelude.Int.{pos, leb_ℤ}
use momentum_system.Float.{Float, Real, nought, ◌≤?◌, fabs}
use momentum_system.Trading.Data.{ExecutionSettings, Account, Outside, Service}
use momentum_system.Trading.Breaker.{recovered, unreadable, is_breach, judged, daily_loss_breach}

module _ ⦃n : Float⦄ where
  module _ (os : ℕ → Outside Real) (cfg : ExecutionSettings Real) where
    -- the state after `k` passes in a row
    unfoldable pub passes : ℕ → Service Real → Service Real
    passes zero s = s
    passes (suc k) s = (daily_loss_breach (os k) cfg (passes k s)).1

    abbrev IsAfter : ℕ → Service Real → Service Real → Type 0
    IsAfter k s t =
        (t.equity_read_failures ≡ k)
        × (t.equity_fail_limit ≡ s.equity_fail_limit)
        × ((t.halted || t.session_closed) ≡ false)
        × (t.data_halt ≡ (ltb 0 k && leb_ℤ s.equity_fail_limit (pos k)))

    failed_pass :
        (o : Outside Real) (t : Service Real)
        → o.account ≡ none
        → (fabs cfg.max_daily_loss_pct ≤? nought) ≡ false
        → (t.halted || t.session_closed) ≡ false
        → daily_loss_breach o cfg t ≡ ((unreadable t).data_halt, unreadable t)
    unfolding daily_loss_breach judged
    failed_pass o t unread on running = rw (unread, on, running, daily_loss_breach) refl

    unreadable-IsAfter :
        (k : ℕ) (s t : Service Real) → IsAfter k s t → IsAfter (suc k) s (unreadable t)
    unfolding unreadable
    unreadable-IsAfter k s t h = ground arith

    passes-IsAfter :
        (k : ℕ) (s : Service Real)
        → ((j : ℕ) → (os j).account ≡ none)
        → (fabs cfg.max_daily_loss_pct ≤? nought) ≡ false
        → IsAfter 0 s s
        → IsAfter k s (passes k s)
    unfolding passes
    passes-IsAfter zero s unread on h = h
    passes-IsAfter (suc k) s unread on h =
        let ih = passes-IsAfter k s unread on h in
        rw (passes, failed_pass (os k) (passes k s) (unread k) on ih.2)
          (unreadable-IsAfter k s (passes k s) ih)

    -- Where the breaker is on, the session neither halted nor closed, and the equity unreadable pass
    -- after pass from a good reading on, the pass after `k` others blocks new entries exactly if the
    -- limit is at most `k + 1` failures.
    pub daily_loss_breach-outage :
        (k : ℕ) (s : Service Real)
        → ((j : ℕ) → (os j).account ≡ none)
        → (fabs cfg.max_daily_loss_pct ≤? nought) ≡ false
        → (s.halted || s.session_closed) ≡ false
        → s.data_halt ≡ false
        → s.equity_read_failures ≡ 0
        → (daily_loss_breach (os k) cfg (passes k s)).0 ≡ leb_ℤ s.equity_fail_limit (pos (suc k))
    daily_loss_breach-outage k s unread on running paused none_yet =
        let before = passes-IsAfter k s unread on (none_yet, refl, running, paused) in
        let after = unreadable-IsAfter k s (passes k s) before in
        rw (failed_pass (os k) (passes k s) (unread k) on before.2) (ground arith)

  -- With a readable equity that is no breach, an open session that was paused goes on: entries are
  -- no longer blocked, and the failures are counted from 0 again.
  pub daily_loss_breach-recovers :
      (o : Outside Real) (cfg : ExecutionSettings Real) (a : Account Real) (s : Service Real)
      → (s.halted || s.session_closed) ≡ false
      → (fabs cfg.max_daily_loss_pct ≤? nought) ≡ false
      → o.account ≡ some a
      → is_breach cfg a ≡ false
      → ((daily_loss_breach o cfg s).0 ≡ false)
        × ((daily_loss_breach o cfg s).1.data_halt ≡ false)
        × ((daily_loss_breach o cfg s).1.equity_read_failures ≡ 0)
  unfolding daily_loss_breach judged recovered
  daily_loss_breach-recovers o cfg a s running on read fine = ground arith
