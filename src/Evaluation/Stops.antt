-- ===== src/Evaluation/Stops.antt =====
-- strategy/evaluation/levels.py: the stops below an entry.
use mathlib.Core.List.{Perm}
use mathlib.Core.List.Perm
use momentum_system.Prelude.{
  ◌≤◌, ◌<◌, ◌≡◌, refl, sym, Bool, Option, none, some, inl, inr, List, [], ◌∷◌, ◌++◌, filter,
  filter-append, All, All-append, Bool-cases, arith,
}
use momentum_system.Float.{Float, Real, rank, ◌⊖◌, ◌<?◌}
use momentum_system.Evaluation.Levels.{
  KeyLevels, LevelName, vwap, ema_9, opening_range_low, low_of_day, named_below, stop_candidates,
  insert_by_distance, sort_by_distance, get_stop_levels,
}

-- A level under its name, if it is known.
abbrev pub known : {R : Type 0} → LevelName → Option R → List (LevelName × R)
known name none = []
known name (some x) = (name, x) ∷ []

-- The levels that a stop may stand at, of those that are known, whatever the entry.
abbrev pub known_stops : {R : Type 0} → KeyLevels R → List (LevelName × R)
known_stops l =
    known vwap l.vwap
    ++ known ema_9 l.ema_9
    ++ known opening_range_low l.opening_range_low
    ++ known low_of_day l.low_of_day

module _ ⦃n : Float⦄ (entry : Real) where
  abbrev pub distance : LevelName × Real → Real
  distance x = entry ⊖ x.1

  -- Each is at least as near to the entry as those after it.
  abbrev pub TightestFirst : List (LevelName × Real) → Type 0
  TightestFirst [] = Unit
  TightestFirst (x ∷ xs) = All (λ y. rank (distance x) ≤ rank (distance y)) xs × TightestFirst xs

  abbrev pub Below : LevelName × Real → Type 0
  Below x = rank x.1 < rank entry

  insert-All :
      (P : LevelName × Real → Type 0) (x : LevelName × Real) (xs : List (LevelName × Real))
      → P x
      → All P xs
      → All P (insert_by_distance entry x xs)
  unfolding insert_by_distance
  insert-All P x [] p ps = (p, tt)
  insert-All P x (y ∷ ys) p ps = elim (Bool-cases (distance y <? distance x)) [
    | inl e ↦ rw e (ps.0, insert-All P x ys p ps.1)
    | inr e ↦ rw e (p, ps)
  ]

  nearer_than :
      (x y : LevelName × Real) (ys : List (LevelName × Real))
      → rank (distance x) ≤ rank (distance y)
      → All (λ z. rank (distance y) ≤ rank (distance z)) ys
      → All (λ z. rank (distance x) ≤ rank (distance z)) ys
  nearer_than x y [] h hs = tt
  nearer_than x y (z ∷ zs) h hs = (omega (arith, hs.0), nearer_than x y zs h hs.1)

  insert-TightestFirst :
      (x : LevelName × Real) (xs : List (LevelName × Real))
      → TightestFirst xs
      → TightestFirst (insert_by_distance entry x xs)
  unfolding insert_by_distance
  insert-TightestFirst x [] h = (tt, tt)
  insert-TightestFirst x (y ∷ ys) h = elim (Bool-cases (distance y <? distance x)) [
    | inl e ↦ rw e (
      insert-All (λ z. rank (distance y) ≤ rank (distance z)) x ys (ground arith) h.0,
      insert-TightestFirst x ys h.1,
    )
    | inr e ↦
        let near : rank (distance x) ≤ rank (distance y) = ground arith in
        rw e ((near, nearer_than x y ys near h.0), h)
  ]

  insert-Perm :
      (x : LevelName × Real) (xs : List (LevelName × Real))
      → Perm (insert_by_distance entry x xs) (x ∷ xs)
  unfolding insert_by_distance
  insert-Perm x [] = Perm.refl (x ∷ [])
  insert-Perm x (y ∷ ys) = elim (Bool-cases (distance y <? distance x)) [
    | inl e ↦ rw e (Perm.trans (Perm.cons y (insert-Perm x ys)) (Perm.swap x y ys))
    | inr e ↦ rw e (Perm.refl (x ∷ y ∷ ys))
  ]

  sort-All :
      (P : LevelName × Real → Type 0) (xs : List (LevelName × Real))
      → All P xs
      → All P (sort_by_distance entry xs)
  unfolding sort_by_distance
  sort-All P [] h = tt
  sort-All P (x ∷ xs) h = insert-All P x (sort_by_distance entry xs) h.0 (sort-All P xs h.1)

  sort-TightestFirst : (xs : List (LevelName × Real)) → TightestFirst (sort_by_distance entry xs)
  unfolding sort_by_distance
  sort-TightestFirst [] = tt
  sort-TightestFirst (x ∷ xs) =
      insert-TightestFirst x (sort_by_distance entry xs) (sort-TightestFirst xs)

  sort-Perm : (xs : List (LevelName × Real)) → Perm (sort_by_distance entry xs) xs
  unfolding sort_by_distance
  sort-Perm [] = Perm.refl []
  sort-Perm (x ∷ xs) =
      Perm.trans (insert-Perm x (sort_by_distance entry xs)) (Perm.cons x (sort-Perm xs))

  named_below-All :
      (name : LevelName) (level : Option Real) → All Below (named_below entry name level)
  named_below-All name none = tt
  named_below-All name (some x) = elim (Bool-cases (x <? entry)) [
    | inl e ↦ rw e (ground arith, tt)
    | inr e ↦ rw e tt
  ]

  abbrev pub is_below : LevelName × Real → Bool
  is_below x = x.1 <? entry

  named_below-known :
      (name : LevelName) (level : Option Real)
      → named_below entry name level ≡ filter is_below (known name level)
  named_below-known name none = refl
  named_below-known name (some x) = refl

  stop_candidates-known :
      (l : KeyLevels Real) → stop_candidates l entry ≡ filter is_below (known_stops l)
  unfolding stop_candidates
  stop_candidates-known l = simp (named_below-known, filter-append is_below)

  stop_candidates-All : (l : KeyLevels Real) → All Below (stop_candidates l entry)
  unfolding stop_candidates
  stop_candidates-All l =
      All-append Below _ _
        (All-append Below _ _
          (All-append Below _ _ (named_below-All vwap l.vwap) (named_below-All ema_9 l.ema_9))
          (named_below-All opening_range_low l.opening_range_low))
        (named_below-All low_of_day l.low_of_day)

  -- The stops that are offered are, of the average price by volume, the exponential average of nine
  -- bars, the low of the opening range and the low of the day, those that are known and below the
  -- entry, each once under its name; and the tightest come first.
  pub get_stop_levels-TightestFirst :
      (l : KeyLevels Real)
      → All Below (get_stop_levels l entry)
        × TightestFirst (get_stop_levels l entry)
        × Perm (get_stop_levels l entry) (filter is_below (known_stops l))
  unfolding get_stop_levels
  get_stop_levels-TightestFirst l = (
    sort-All Below (stop_candidates l entry) (stop_candidates-All l),
    sort-TightestFirst (stop_candidates l entry),
    rw (sym (stop_candidates-known l)) (sort-Perm (stop_candidates l entry)),
  )
