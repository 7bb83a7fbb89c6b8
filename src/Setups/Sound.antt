-- ===== src/Setups/Sound.antt =====
-- strategy/evaluation/structure.py: each detector returns, and its legs lie in the frame.
use momentum_system.Prelude.{
  ℕ, suc, ◌+◌, ◌-◌, ◌<◌, ◌≤◌, min, ◌≡◌, ◌⊎◌, inl, inr, refl, false, none, some, List, [], ◌∷◌,
  length, drop, leb, ltb, Bool-cases, Option-cases, arith,
}
use momentum_system.Float.{Float, Real, ◌⊖◌, fmin}
use momentum_system.Setups.Data.{
  BarRow, SetupType, StructureDetectionResult, slice, refused, with_legs, without_legs, Refusal,
}
use momentum_system.Setups.Flag.{find_impulse, contract, flag_after, detect_bull_flag}
use momentum_system.Setups.Yields.{
  Yields, yields, length-drop, length-slice, get_elem?-Yields, max_of-Yields, min_of-Yields,
}

-- The legs of a result over `k` rows: it names none, or the impulse ends before the consolidation
-- starts, which ends in the frame.
pub record Legs {R : Type 0} (k : ℕ) (r : StructureDetectionResult R) : Type 0 where
  pub impulse_start : ℕ
  pub impulse_end : ℕ
  pub consolidation_start : ℕ
  pub consolidation_end : ℕ
  pub starts : r.impulse_start_idx ≡ some impulse_start
  pub ends : r.impulse_end_idx ≡ some impulse_end
  pub consolidates : r.consolidation_start_idx ≡ some consolidation_start
  pub consolidated : r.consolidation_end_idx ≡ some consolidation_end
  pub rises : impulse_start < impulse_end
  pub follows : impulse_end < consolidation_start
  pub lasts : consolidation_start ≤ consolidation_end
  pub inside : consolidation_end < k

pub record Levels {R : Type 0} (r : StructureDetectionResult R) : Type 0 where
  pub breakout : R
  pub stop : R
  pub has_breakout : r.breakout_level ≡ some breakout
  pub has_stop : r.stop_level ≡ some stop

-- A valid result has both levels, and its legs are in order.
abbrev pub Sound : {R : Type 0} → ℕ → StructureDetectionResult R → Type 0
Sound k r = (r.is_valid ≡ false) ⊎ (Levels r × ((r.impulse_start_idx ≡ none) ⊎ Legs k r))

module _ ⦃n : Float⦄ where
  pub refused-Sound :
      (k : ℕ) (setup : SetupType) (why : Refusal) → Yields (Sound k) (some (refused setup why))
  unfolding refused
  refused-Sound k setup why = yields (refused setup why) (inl refl)

  pub with_legs-Sound :
      (k : ℕ) {setup : SetupType} {i j l m : ℕ} {breakout stop quality : Real}
      → i < j
      → j < l
      → l ≤ m
      → m < k
      → Yields (Sound k) (some (with_legs setup i j l m breakout stop quality))
  with_legs-Sound k {i = i} {j = j} {l = l} {m = m} {breakout = breakout} {stop = stop} a b c d =
      yields _ (
        inr (
          record { breakout = breakout; stop = stop; has_breakout = refl; has_stop = refl },
          inr (record {
            impulse_start = i;
            impulse_end = j;
            consolidation_start = l;
            consolidation_end = m;
            starts = refl;
            ends = refl;
            consolidates = refl;
            consolidated = refl;
            rises = a;
            follows = b;
            lasts = c;
            inside = d;
          }),
        ))

  pub without_legs-Sound :
      (k : ℕ) {setup : SetupType} {breakout stop quality : Real}
      → Yields (Sound k) (some (without_legs setup breakout stop quality))
  without_legs-Sound k {breakout = breakout} {stop = stop} = yields _ (
      inr (
        record { breakout = breakout; stop = stop; has_breakout = refl; has_stop = refl },
        inl refl,
      ))

  find_impulse-bounds :
      (pct : Real) (i at : ℕ) (olds news : List (BarRow Real))
      → find_impulse pct i olds news ≡ some at
      → (i ≤ at) × (at < i + length news)
  unfolding find_impulse
  find_impulse-bounds pct i at [] [] h = ground arith
  find_impulse-bounds pct i at (o ∷ os) [] h = ground arith
  find_impulse-bounds pct i at [] (c ∷ cs) h = ground arith
  find_impulse-bounds pct i at (o ∷ os) (c ∷ cs) h =
      ground (arith, find_impulse-bounds pct (suc i) at os cs)

  contract-bounds :
      (i : ℕ) (prev : Real) (found : ℕ) (rs : List (BarRow Real))
      → found ≤ i
      → (found ≤ contract i prev found rs)
        × ((contract i prev found rs ≤ found) ⊎ (contract i prev found rs < i + length rs))
  unfolding contract
  contract-bounds i prev found [] h = (omega arith, inl (omega arith))
  contract-bounds i prev found (r ∷ rs) h =
      let range = r.high ⊖ r.low in ground (arith, contract-bounds (suc i) (fmin prev range) i rs)

  module _ (rows : List (BarRow Real)) where
    -- the end of the consolidation lies between its start and the end of the frame
    flag_end :
        (max_bars start : ℕ) (prev : Real)
        → start < length rows
        → let max_idx = min (start + max_bars) (length rows - 1) in
          let end = contract start prev start (slice start max_idx rows) in
          (start ≤ end) × (end < length rows)
    flag_end max_bars start prev h =
        let max_idx = min (start + max_bars) (length rows - 1) in
        let window = slice start max_idx rows in
        omega (
          arith,
          contract-bounds start prev start window (omega arith),
          length-slice start max_idx rows,
        )

    flag_after-Sound :
        (min_impulse_bars max_consolidation_bars impulse_end : ℕ)
        → 0 < min_impulse_bars
        → min_impulse_bars ≤ impulse_end
        → impulse_end < length rows
        → Yields
            (Sound (length rows))
            (flag_after rows min_impulse_bars max_consolidation_bars impulse_end)
    unfolding flag_after
    flag_after-Sound min_impulse_bars max_consolidation_bars impulse_end pos low high =
        let start = impulse_end + 1 in
        let max_idx = min (start + max_consolidation_bars) (length rows - 1) in
        let impulse_start = impulse_end - min_impulse_bars in
        let top = get_elem?-Yields rows impulse_end high in
        let prev = top.value.high ⊖ top.value.low in
        let end = contract start prev start (slice start max_idx rows) in
        let bottom = get_elem?-Yields rows impulse_start (omega arith) in
        elim (Bool-cases (leb (length rows) start)) [
          | inl e ↦ rw e (refused-Sound _ _ _)
          | inr e ↦
              let inside : start < length rows = ground (arith, e) in
              let (after, before) = flag_end max_consolidation_bars start prev inside in
              let first = get_elem?-Yields rows start inside in
              let some_left : 0 < length (slice start (end + 1) rows) =
                omega (arith, after, inside, length-slice start (end + 1) rows) in
              let some_all : 0 < length (slice impulse_start (end + 1) rows) =
                omega (arith, after, inside, length-slice impulse_start (end + 1) rows) in
              let high' = max_of-Yields (λ r. r.high) (slice start (end + 1) rows) some_left in
              let low' = min_of-Yields (λ r. r.low) (slice start (end + 1) rows) some_left in
              let all_low =
                min_of-Yields (λ r. r.low) (slice impulse_start (end + 1) rows) some_all in
              rw (e, top.returns)
                (elim (Bool-cases (ltb (end - start + 1) 2)) [
                  | inl f ↦ rw f (refused-Sound _ _ _)
                  | inr f ↦
                      rw
                        (
                          f, bottom.returns, first.returns, high'.returns, low'.returns,
                          all_low.returns,
                        )
                        (with_legs-Sound (length rows) (omega arith) (omega arith) after before)
                ])
        ]

    pub detect_bull_flag-Sound :
        (min_impulse_bars max_consolidation_bars : ℕ) (min_impulse_pct : Real)
        → 0 < min_impulse_bars
        → Yields
            (Sound (length rows))
            (detect_bull_flag rows min_impulse_bars max_consolidation_bars min_impulse_pct)
    unfolding detect_bull_flag
    detect_bull_flag-Sound min max' pct pos =
        let news = drop min rows in
        let found = find_impulse pct min rows news in
        elim (Bool-cases (ltb (length rows) (min + 2))) [
          | inl e ↦ rw e (refused-Sound _ _ _)
          | inr e ↦ rw e (elim (Option-cases found) [
            | inl f ↦ rw f (refused-Sound _ _ _)
            | inr (at, f) ↦
                (let (l, u) = find_impulse-bounds pct min at rows news f in
                  let long : length news ≡ length rows - min = length-drop min rows in
                  let enough : min + 2 ≤ length rows = ground (arith, e) in
                  rw f (flag_after-Sound min max' at pos l (omega (arith, u, long, enough))))
          ])
        ]
