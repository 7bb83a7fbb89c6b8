-- ===== src/Replay/Window.antt =====
-- storage/replay.py and storage/event_store.py: how much of a session is rebuilt, and counted.
use momentum_system.Prelude.{
  ℕ, zero, suc, ◌+◌, ◌≤◌, ◌≡◌, refl, ◌∙◌, ap, String, Bool, none, some, List, [], ◌∷◌, ◌++◌, take,
  filter, filter-append, length, count, arith,
}
use momentum_system.Prelude.Dict.{Dict, lookup, insert}
use momentum_system.Replay.Data.{StoredEvent}
use momentum_system.Replay.Rebuild.{
  process_events, empty_state, in_session, query_events, rebuild_session, type_name, tally,
  rebuild_state,
}

module _ {A : Type 0} where
  length-filter : (keep : A → Bool) (xs : List A) → length (filter keep xs) ≡ count keep xs
  length-filter keep [] = refl
  length-filter keep (x ∷ xs) = ground (arith, length-filter keep xs)

  take-append : (k : ℕ) (xs ys : List A) → k ≤ length xs → take k (xs ++ ys) ≡ take k xs
  take-append zero xs ys h = refl
  take-append (suc k) [] ys h = ground arith
  take-append (suc k) (x ∷ xs) ys h = ap (λ zs. x ∷ zs) (take-append k xs ys (omega arith))

-- the sum of the counters
abbrev pub total : Dict ℕ → ℕ
total [] = 0
total ((k, n) ∷ d) = n + total d

total-insert :
    (k : String) (d : Dict ℕ)
    → (let n : ℕ = elim (lookup k d) [ none ↦ 0 | some i ↦ i ] in
        total (insert k (n + 1) d) ≡ total d + 1)
total-insert k [] = omega arith
total-insert k ((j, i) ∷ d) = ground (arith, total-insert k d)

module _ {R : Type 0} where
  -- A session is rebuilt from its first thousand events: once the table has as many of the session,
  -- the rows after them change nothing in what `rebuild_session` returns.
  pub rebuild_session-window :
      (session_id : String) (rows later : List (StoredEvent R))
      → 1000 ≤ count (in_session session_id) rows
      → rebuild_session session_id (rows ++ later) ≡ rebuild_session session_id rows
  unfolding rebuild_session query_events
  rebuild_session-window session_id rows later h =
      let keep = in_session {R = R} session_id in
      ap (process_events (empty_state session_id)) (
        ap (take 1000) (filter-append keep rows later)
        ∙ take-append 1000 (filter keep rows) (filter keep later)
            (omega (arith, length-filter keep rows)))

  tally-total : (es : List (StoredEvent R)) (d : Dict ℕ) → total (tally d es) ≡ total d + length es
  unfolding tally
  tally-total [] d = omega arith
  tally-total (e ∷ es) d =
      let kind = type_name e.body in
      let n : ℕ = elim (lookup kind d) [ none ↦ 0 | some i ↦ i ] in
      omega (arith, tally-total es (insert kind (n + 1) d), total-insert kind d)

  -- The summary counts every event of the session, without a limit: its counters sum up to its
  -- total, which is the number of the session's rows in the table.
  pub rebuild_state-total :
      (session_id : String) (rows : List (StoredEvent R))
      → (total (rebuild_state session_id rows).event_types
          ≡ (rebuild_state session_id rows).total_events)
        × ((rebuild_state session_id rows).total_events ≡ count (in_session session_id) rows)
  unfolding rebuild_state query_events
  rebuild_state-total session_id rows =
      let keep = in_session {R = R} session_id in
      (omega (arith, tally-total (filter keep rows) []), length-filter keep rows)
