-- ===== src/Setups/Legged.antt =====
-- strategy/evaluation/structure.py: the pullback and the fallback return, with legs in order.
use momentum_system.Prelude.{
  ℕ, suc, ◌+◌, ◌-◌, ◌<◌, ◌≤◌, min, max, ◌≡◌, ◌⊎◌, inl, inr, refl, List, [], ◌∷◌, length, take, drop,
  leb, ltb, Bool-cases, arith,
}
use momentum_system.Float.{Float, Real, lit, nought, one, ◌⊖◌, ◌⊗◌, ◌⊘◌, ◌<?◌, ◌≤?◌, fmax}
use momentum_system.Setups.Data.{BarRow, slice}
use momentum_system.Setups.Pullback.{
  argmax_from, argmax_high, pullback_after, pullback_at, detect_first_pullback,
}
use momentum_system.Setups.Fallback.{
  Impulse, best_impulse, fallback_from, fallback_after, fallback_of, detect_continuation_fallback,
}
use momentum_system.Setups.Yields.{
  Yields, yields, length-take, length-slice, get_elem?-Yields, last_row-Yields, max_of-Yields,
  min_of-Yields,
}
use momentum_system.Setups.Sound.{Sound, refused-Sound, with_legs-Sound}

module _ ⦃n : Float⦄ where
  argmax_from-bounds :
      (i found : ℕ) (best : Real) (rs : List (BarRow Real))
      → (argmax_from i found best rs ≡ found) ⊎ (argmax_from i found best rs < i + length rs)
  unfolding argmax_from
  argmax_from-bounds i found best [] = inl refl
  argmax_from-bounds i found best (r ∷ rs) =
      ground
        (arith, argmax_from-bounds (suc i) i r.high rs, argmax_from-bounds (suc i) found best rs)

  pub argmax_high-Yields :
      (rs : List (BarRow Real)) → 0 < length rs → Yields (λ at. at < length rs) (argmax_high rs)
  unfolding argmax_high
  argmax_high-Yields [] h = ground arith
  argmax_high-Yields (r ∷ rs) h = yields _ (ground (arith, argmax_from-bounds 1 0 r.high rs))

  module _ (rows : List (BarRow Real)) where
    pullback_after-Sound :
        (max_bars : ℕ) (max_depth : Real) (at lookback : ℕ) (high range : Real)
        → 0 < max_bars
        → 0 < lookback
        → lookback ≤ at
        → Yields
            (Sound (length rows))
            (pullback_after rows max_bars max_depth at lookback high range)
    unfolding pullback_after
    pullback_after-Sound max_bars max_depth at lookback high range pos back low' =
        let start = at + 1 in
        let end = min (start + max_bars - 1) (length rows - 1) in
        elim (Bool-cases (leb (length rows - 1) at)) [
          | inl e ↦ rw e (refused-Sound _ _ _)
          | inr e ↦
              (let inside : at < length rows - 1 = ground (arith, e) in
                let window : 0 < length (slice start (end + 1) rows) =
                  omega (arith, inside, length-slice start (end + 1) rows) in
                let low = min_of-Yields (λ r. r.low) (slice start (end + 1) rows) window in
                rw (e, low.returns)
                  (elim (Bool-cases (max_depth <? ((high ⊖ low.value) ⊘ range))) [
                    | inl f ↦ rw f (refused-Sound _ _ _)
                    | inr f ↦ rw f (
                        with_legs-Sound (length rows) (omega arith) (omega arith)
                          (omega (arith, inside)) (omega (arith, inside)))
                  ]))
        ]

    pullback_at-Sound :
        (max_bars : ℕ) (max_depth : Real) (at : ℕ)
        → 0 < max_bars
        → at < length rows
        → Yields (Sound (length rows)) (pullback_at rows max_bars max_depth at)
    unfolding pullback_at
    pullback_at-Sound max_bars max_depth at pos inside =
        let lookback = min at 10 in
        let from = at - lookback in
        let top = get_elem?-Yields rows at inside in
        rw top.returns (elim (Bool-cases (ltb lookback 3)) [
          | inl g ↦ rw g (refused-Sound _ _ _)
          | inr g ↦
              (let back : 3 ≤ lookback = ground (arith, g) in
                let window : 0 < length (slice from at rows) =
                  omega (arith, back, inside, length-slice from at rows) in
                let low = min_of-Yields (λ r. r.low) (slice from at rows) window in
                let range = top.value.high ⊖ low.value in
                rw (g, low.returns)
                  (elim (Bool-cases ((range ⊘ low.value) <? lit 3 100)) [
                    | inl i ↦ rw i (refused-Sound _ _ _)
                    | inr i ↦ rw i (
                        pullback_after-Sound max_bars max_depth at lookback top.value.high range pos
                          (omega (arith, back)) (omega arith))
                  ]))
        ])

    pub detect_first_pullback-Sound :
        (max_bars : ℕ) (max_depth : Real) (search_bars : ℕ)
        → 0 < max_bars
        → Yields (Sound (length rows)) (detect_first_pullback rows max_bars max_depth search_bars)
    unfolding detect_first_pullback
    detect_first_pullback-Sound max_bars max_depth search_bars pos =
        let search_end = min (length rows) search_bars in
        let searched = take search_end rows in
        elim (Bool-cases (ltb (length rows) 5)) [
          | inl e ↦ rw e (refused-Sound _ _ _)
          | inr e ↦ rw e (elim (Bool-cases (ltb search_end 5)) [
            | inl f ↦ rw f (refused-Sound _ _ _)
            | inr f ↦
                (let wide : 5 ≤ search_end = ground (arith, f) in
                  let at =
                    argmax_high-Yields searched
                      (omega (arith, wide, length-take search_end rows)) in
                  rw (f, at.returns)
                    (pullback_at-Sound max_bars max_depth at.value pos
                      (omega (arith, at.holds, length-take search_end rows))))
          ])
        ]

    best_impulse-bounds :
        (window i : ℕ) (best : Impulse Real) (olds news : List (BarRow Real)) (k : ℕ)
        → i + length olds ≤ k
        → best.start + window ≡ best.end
        → best.start < k
        → let found = best_impulse window i best olds news in
          (found.start + window ≡ found.end) × (found.start < k)
    unfolding best_impulse
    best_impulse-bounds window i best [] news k h e l = (e, l)
    best_impulse-bounds window i best (a ∷ olds) [] k h e l = (e, l)
    best_impulse-bounds window i best (a ∷ olds) (b ∷ news) k h e l =
        let gain = (b.close ⊖ a.close) ⊘ a.close in
        let here : Impulse Real = record { start = i; end = i + window; gain = gain } in
        let later : suc i + length olds ≤ k = omega (arith, h) in
        ground (
          arith,
          best_impulse-bounds window (suc i) best olds news k later e l,
          best_impulse-bounds window (suc i) here olds news k later refl (omega (arith, h)),
        )

    fallback_from-Sound :
        (best : Impulse Real) (max_pct high range : Real) (start end : ℕ)
        → best.start < best.end
        → best.end < start
        → start < end
        → end < length rows
        → Yields (Sound (length rows)) (fallback_from rows best max_pct high range start end)
    unfolding fallback_from
    fallback_from-Sound best max_pct high range start end rises follows lasts inside =
        let last = last_row-Yields rows (omega arith) in
        let window : 0 < length (slice start (end + 1) rows) =
          omega (arith, lasts, inside, length-slice start (end + 1) rows) in
        let low = min_of-Yields (λ r. r.low) (slice start (end + 1) rows) window in
        let pct = fmax nought (high ⊖ low.value) ⊘ range in
        rw low.returns (elim (Bool-cases (max_pct <? pct)) [
          | inl e ↦ rw e (refused-Sound _ _ _)
          | inr e ↦ rw e (elim (Bool-cases (high ≤? (low.value ⊗ lit 995 1000))) [
            | inl f ↦ rw f (refused-Sound _ _ _)
            | inr f ↦
                rw (f, last.returns)
                  (with_legs-Sound (length rows) rises follows (omega (arith, lasts)) inside)
          ])
        ])

    fallback_after-Sound :
        (best : Impulse Real) (max_pct high range : Real)
        → best.start < best.end
        → best.end < length rows
        → Yields (Sound (length rows)) (fallback_after rows best max_pct high range)
    unfolding fallback_after
    fallback_after-Sound best max_pct high range rises inside =
        let start = min (best.end + 1) (length rows - 1) in
        let end = min (start + 20) (length rows - 1) in
        elim (Bool-cases (range ≤? nought)) [
          | inl e ↦ rw e (refused-Sound _ _ _)
          | inr e ↦ rw e (elim (Bool-cases (leb end start)) [
            | inl f ↦ rw f (refused-Sound _ _ _)
            | inr f ↦
                (let wide : start < end = ground (arith, f) in
                  rw f (
                    fallback_from-Sound best max_pct high range start end rises
                      (omega (arith, wide)) wide (omega (arith, wide))))
          ])
        ]

    fallback_of-Sound :
        (best : Impulse Real) (max_pct : Real)
        → best.start < best.end
        → best.end < length rows
        → Yields (Sound (length rows)) (fallback_of rows best max_pct)
    unfolding fallback_of
    fallback_of-Sound best max_pct rises inside =
        let span = slice best.start (best.end + 1) rows in
        let window : 0 < length span =
          omega (arith, rises, inside, length-slice best.start (best.end + 1) rows) in
        let high = max_of-Yields (λ r. r.high) span window in
        let low = min_of-Yields (λ r. r.low) span window in
        rw (high.returns, low.returns)
          (fallback_after-Sound best max_pct high.value (high.value ⊖ low.value) rises inside)

    pub detect_continuation_fallback-Sound :
        (min_bars window : ℕ) (min_impulse_pct max_pullback_pct : Real)
        → 0 < window
        → Yields
            (Sound (length rows))
            (detect_continuation_fallback rows min_bars window min_impulse_pct max_pullback_pct)
    unfolding detect_continuation_fallback
    detect_continuation_fallback-Sound min_bars window min_pct max_pct pos =
        let search_end = min (length rows) (max min_bars 120) in
        let olds = take (search_end - window) rows in
        let first : Impulse Real = record { start = 0; end = window; gain = n.neg one } in
        let best = best_impulse window 0 first olds (drop window rows) in
        elim (Bool-cases (ltb (length rows) min_bars)) [
          | inl e ↦ rw e (refused-Sound _ _ _)
          | inr e ↦ rw e (elim (Bool-cases (ltb search_end (window + 5))) [
            | inl f ↦ rw f (refused-Sound _ _ _)
            | inr f ↦ rw f (elim (Bool-cases (best.gain <? min_pct)) [
              | inl g ↦ rw g (refused-Sound _ _ _)
              | inr g ↦
                  (let wide : window + 5 ≤ search_end = ground (arith, f) in
                    let (spans, starts) =
                      best_impulse-bounds window 0 first olds (drop window rows)
                        (search_end - window)
                        (omega (arith, length-take (search_end - window) rows)) (omega arith)
                        (omega (arith, wide)) in
                    rw g (
                      fallback_of-Sound best max_pct (omega (arith, spans, pos))
                        (omega (arith, spans, starts, wide))))
            ])
          ])
        ]
