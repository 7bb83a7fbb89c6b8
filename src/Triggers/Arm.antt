-- ===== src/Triggers/Arm.antt =====
-- `ArmedTriggerBook.arm` of runtime/triggers.py: the size of the watchlist, and what is pinned.
use momentum_system.Prelude.{
  not, ◌||◌, ℕ, suc, ◌≤◌, ◌≡◌, refl, String, eq_iff, Bool, true, inl, inr, Option, none, some, List,
  [], ◌∷◌, leb, Bool-cases, All, arith,
}
use momentum_system.Prelude.Dict.{
  Dict, lookup, contains, insert, lookup-insert, NoDup, NoDup-insert, NoDup-filter, All-insert,
  All-filter,
}
use momentum_system.Float.{Float, Real}
use momentum_system.Triggers.Data.{is_armed, committed, ArmedTrigger, ArmedTriggerBook, Candidate}
use momentum_system.Triggers.Arming.{
  eligible, refreshed, or_fresh, copied, classify, pinned, active, arm_loop, arm,
}

module _ ⦃n : Float⦄ where
  active-pinned : (d : Dict (ArmedTrigger Real)) → active (pinned d) ≡ 0
  unfolding active pinned
  active-pinned [] = refl
  active-pinned ((k, t) ∷ d) = ground (arith, active-pinned d)

  active-insert :
      (k : String) (t : ArmedTrigger Real) (d : Dict (ArmedTrigger Real))
      → active (insert k t d) ≤ suc (active d)
  unfolding active
  active-insert k t [] = ground arith
  active-insert k t ((j, u) ∷ d) = ground (arith, active-insert k t d)

  active-arm_loop :
      (book : ArmedTriggerBook Real) (candidates : List (Candidate Real))
      (new : Dict (ArmedTrigger Real)) (rank : ℕ)
      → active new ≤ book.max_armed
      → active (arm_loop book candidates new rank) ≤ book.max_armed
  unfolding arm_loop
  active-arm_loop book [] new rank h = h
  active-arm_loop book (c ∷ candidates) new rank h = elim (Bool-cases (contains c.symbol new)) [
    | inl e ↦ rw (e, arm_loop) (active-arm_loop book candidates new rank h)
    | inr e ↦ elim (Bool-cases (leb book.max_armed (active new))) [
      | inl full ↦ rw (e, full, arm_loop) h
      | inr room ↦
          let t = refreshed book c (suc rank) in
          rw (e, room, arm_loop)
            (active-arm_loop book candidates (insert c.symbol t new) (suc rank)
              (ground (arith, active-insert c.symbol t new)))
    ]
  ]

  -- After `arm`, at most `max_armed` of the symbols in the book are not committed to a trade.
  pub active-arm :
      (candidates : List (Candidate Real)) (book : ArmedTriggerBook Real)
      → active (arm candidates book).triggers ≤ book.max_armed
  unfolding arm
  active-arm candidates book =
      active-arm_loop book candidates (pinned book.triggers) 0
        (omega (arith, active-pinned book.triggers))

  lookup-pinned :
      (s : String) (t : ArmedTrigger Real) (d : Dict (ArmedTrigger Real))
      → lookup s d ≡ some t
      → committed t.state ≡ true
      → lookup s (pinned d) ≡ some t
  unfolding pinned
  lookup-pinned s t [] h c = cc
  lookup-pinned s t ((k, u) ∷ d) h c = ground (arith, lookup-pinned s t d)

  lookup-arm_loop :
      (book : ArmedTriggerBook Real) (s : String) (t : ArmedTrigger Real)
      (candidates : List (Candidate Real)) (new : Dict (ArmedTrigger Real)) (rank : ℕ)
      → lookup s new ≡ some t
      → lookup s (arm_loop book candidates new rank) ≡ some t
  unfolding arm_loop
  lookup-arm_loop book s t [] new rank h = h
  lookup-arm_loop book s t (c ∷ candidates) new rank h =
      let u = refreshed book c (suc rank) in
      ground (
        arith,
        eq_iff c.symbol s,
        lookup-insert c.symbol s u new,
        lookup-arm_loop book s t candidates new rank,
        lookup-arm_loop book s t candidates (insert c.symbol u new) (suc rank),
      )

  -- A trigger that has fired or filled is pinned: `arm` leaves it as it was, whatever the new
  -- ranking holds.
  pub lookup-arm-committed :
      (candidates : List (Candidate Real)) (book : ArmedTriggerBook Real) (s : String)
      (t : ArmedTrigger Real)
      → lookup s book.triggers ≡ some t
      → committed t.state ≡ true
      → lookup s (arm candidates book).triggers ≡ some t
  unfolding arm
  lookup-arm-committed candidates book s t h c =
      lookup-arm_loop book s t candidates (pinned book.triggers) 0
        (lookup-pinned s t book.triggers h c)

  -- An entry stands under its own symbol, and is armed only if it qualifies.
  abbrev pub IsSound : ArmedTriggerBook Real → String × ArmedTrigger Real → Type 0
  IsSound book (k, t) = (t.symbol ≡ k) × ((not (is_armed t.state) || eligible book t) ≡ true)

  abbrev pub IsValid : ArmedTriggerBook Real → Type 0
  IsValid book = NoDup book.triggers × All (IsSound book) book.triggers

  lookup-IsSound :
      (book : ArmedTriggerBook Real) (s : String) (t : ArmedTrigger Real)
      (d : Dict (ArmedTrigger Real))
      → All (IsSound book) d
      → lookup s d ≡ some t
      → t.symbol ≡ s
  lookup-IsSound book s t [] h e = cc
  lookup-IsSound book s t ((k, u) ∷ d) h e =
      ground (arith, eq_iff k s, h.0.0, lookup-IsSound book s t d h.1)

  classify-armed :
      (book : ArmedTriggerBook Real) (complete : Bool) (t : ArmedTrigger Real)
      → (not (is_armed (classify book complete t)) || eligible book t) ≡ true
  unfolding classify
  classify-armed book complete t = ground arith

  refreshed-IsSound :
      (book : ArmedTriggerBook Real) (c : Candidate Real) (rank : ℕ)
      → All (IsSound book) book.triggers
      → IsSound book (c.symbol, refreshed book c rank)
  unfolding refreshed classify
  refreshed-IsSound book c rank h = (
    same_symbol (lookup c.symbol book.triggers)
        (λ t e. lookup-IsSound book c.symbol t book.triggers h e),
    classify-armed book c.complete
        (copied c rank (or_fresh (lookup c.symbol book.triggers) c.symbol)),
  )
    where
      same_symbol :
          (o : Option (ArmedTrigger Real))
          → ((t : ArmedTrigger Real) → o ≡ some t → t.symbol ≡ c.symbol)
          → (or_fresh o c.symbol).symbol ≡ c.symbol
      same_symbol none f = refl
      same_symbol (some t) f = f t refl

  arm_loop-IsValid :
      (book : ArmedTriggerBook Real) (candidates : List (Candidate Real))
      (new : Dict (ArmedTrigger Real)) (rank : ℕ)
      → All (IsSound book) book.triggers
      → NoDup new × All (IsSound book) new
      → NoDup (arm_loop book candidates new rank)
        × All (IsSound book) (arm_loop book candidates new rank)
  unfolding arm_loop
  arm_loop-IsValid book [] new rank old h = h
  arm_loop-IsValid book (c ∷ candidates) new rank old h =
      let u = refreshed book c (suc rank) in
      elim (Bool-cases (contains c.symbol new)) [
        | inl e ↦ rw (e, arm_loop) (arm_loop-IsValid book candidates new rank old h)
        | inr e ↦ elim (Bool-cases (leb book.max_armed (active new))) [
          | inl full ↦ rw (e, full, arm_loop) h
          | inr room ↦
              rw (e, room, arm_loop)
                (arm_loop-IsValid book candidates (insert c.symbol u new) (suc rank) old (
                  NoDup-insert c.symbol u new h.0,
                  All-insert (IsSound book) c.symbol u new (refreshed-IsSound book c (suc rank) old)
                      h.1,
                ))
        ]
      ]

  -- `arm` keeps the book valid.
  pub arm-IsValid :
      (candidates : List (Candidate Real)) (book : ArmedTriggerBook Real)
      → IsValid book
      → IsValid (arm candidates book)
  unfolding arm pinned eligible
  arm-IsValid candidates book h =
      arm_loop-IsValid book candidates (pinned book.triggers) 0 h.1
        (NoDup-filter _ book.triggers h.0, All-filter (IsSound book) _ book.triggers h.1)
