-- ===== src/Prelude/Dict.antt =====
-- A Python dict with string keys, in insertion order.
use Prim.Native.String.{String}
use text.Mathlib.Text.{◌==◌}
use text.Mathlib.TextEquality.{eq_iff}
use mathlib.Core.Path.{◌≡◌, refl}
use mathlib.Core.Bool.{Bool, true, false}
use mathlib.Core.Option.{Option, none, some}
use mathlib.Core.List.{List, [], ◌∷◌}
use native.Mathlib.Omega.{arith}
use mathlib.Core.Logic.{inl, inr}
use momentum_system.Prelude.Tests.{if◌then◌else◌, Bool-cases}
use momentum_system.Prelude.Lists.{filter, All}

abbrev pub Dict {ℓ} : Type ℓ → Type ℓ
Dict V = List (String × V)

module _ {ℓ} {V : Type ℓ} where
  -- `d.get(k)`
  abbrev pub lookup : String → Dict V → Option V
  lookup k [] = none
  lookup k ((j, v) ∷ d) = if j == k then some v else lookup k d

  -- `k in d`
  abbrev pub contains : String → Dict V → Bool
  contains k d = elim (lookup k d) [ none ↦ false | some _ ↦ true ]

  -- `d[k] = v`: in place for a key that is there, else at the end
  abbrev pub insert : String → V → Dict V → Dict V
  insert k v [] = (k, v) ∷ []
  insert k v ((j, w) ∷ d) = if j == k then (j, v) ∷ d else (j, w) ∷ insert k v d

  -- `d.pop(k, None)`
  abbrev pub erase : String → Dict V → Dict V
  erase k [] = []
  erase k ((j, w) ∷ d) = if j == k then d else (j, w) ∷ erase k d

  pub lookup-insert :
      (k j : String) (v : V) (d : Dict V)
      → lookup j (insert k v d) ≡ (if k == j then some v else lookup j d)
  lookup-insert k j v [] = refl
  lookup-insert k j v ((i, w) ∷ d) =
      ground (arith, eq_iff k j, eq_iff i k, eq_iff i j, lookup-insert k j v d)

  -- no key stands twice
  abbrev pub NoDup : Dict V → Type ℓ
  NoDup [] = Unit
  NoDup ((j, w) ∷ d) = (lookup j d ≡ none) × NoDup d

  pub lookup-erase :
      (k j : String) (d : Dict V)
      → NoDup d
      → lookup j (erase k d) ≡ (if k == j then none else lookup j d)
  lookup-erase k j [] h = ground arith
  lookup-erase k j ((i, w) ∷ d) h =
      ground (arith, eq_iff k j, eq_iff i k, eq_iff i j, lookup-erase k j d h.1)

  -- a change to the object that `d.get(k)` returns
  abbrev pub modify : String → (V → V) → Dict V → Dict V
  modify k f [] = []
  modify k f ((j, w) ∷ d) = if j == k then (j, f w) ∷ d else (j, w) ∷ modify k f d

  pub lookup-modify :
      (k j : String) (f : V → V) (d : Dict V)
      → lookup j (modify k f d)
        ≡ (if k == j then elim (lookup j d) [ none ↦ none | some v ↦ some (f v) ] else lookup j d)
  lookup-modify k j f [] = ground arith
  lookup-modify k j f ((i, w) ∷ d) =
      ground (arith, eq_iff k j, eq_iff i k, eq_iff i j, lookup-modify k j f d)

  pub lookup-modify-none :
      (k j : String) (f : V → V) (d : Dict V) → lookup j d ≡ none → lookup j (modify k f d) ≡ none
  lookup-modify-none k j f d h = ground (arith, lookup-modify k j f d)

  pub NoDup-modify : (k : String) (f : V → V) (d : Dict V) → NoDup d → NoDup (modify k f d)
  NoDup-modify k f [] h = tt
  NoDup-modify k f ((i, w) ∷ d) h =
      ground (arith, lookup-modify-none k i f d, NoDup-modify k f d h.1)

  pub NoDup-insert : (k : String) (v : V) (d : Dict V) → NoDup d → NoDup (insert k v d)
  NoDup-insert k v [] h = (refl, tt)
  NoDup-insert k v ((i, w) ∷ d) h =
      ground (arith, eq_iff i k, eq_iff k i, lookup-insert k i v d, NoDup-insert k v d h.1)

  pub lookup-erase-none :
      (k j : String) (d : Dict V) → lookup j d ≡ none → lookup j (erase k d) ≡ none
  lookup-erase-none k j [] h = refl
  lookup-erase-none k j ((i, w) ∷ d) h = ground (arith, lookup-erase-none k j d)

  pub NoDup-erase : (k : String) (d : Dict V) → NoDup d → NoDup (erase k d)
  NoDup-erase k [] h = tt
  NoDup-erase k ((i, w) ∷ d) h = ground (arith, lookup-erase-none k i d h.0, NoDup-erase k d h.1)

  pub lookup-filter-none :
      (keep : String × V → Bool) (k : String) (d : Dict V)
      → lookup k d ≡ none
      → lookup k (filter keep d) ≡ none
  lookup-filter-none keep k [] h = refl
  lookup-filter-none keep k ((i, w) ∷ d) h = ground (arith, lookup-filter-none keep k d)

  pub NoDup-filter : (keep : String × V → Bool) (d : Dict V) → NoDup d → NoDup (filter keep d)
  NoDup-filter keep [] h = tt
  NoDup-filter keep ((i, w) ∷ d) h =
      ground (arith, lookup-filter-none keep i d h.0, NoDup-filter keep d h.1)

  module _ {κ} (P : String × V → Type κ) where
    pub All-modify :
        (k : String) (f : V → V) (d : Dict V)
        → ((j : String) (w : V) → P (j, w) → P (j, f w))
        → All P d
        → All P (modify k f d)
    All-modify k f [] step h = tt
    All-modify k f ((i, w) ∷ d) step h = elim (Bool-cases (i == k)) [
      | inl e ↦ rw e (step i w h.0, h.1)
      | inr e ↦ rw e (h.0, All-modify k f d step h.1)
    ]

    pub All-insert : (k : String) (v : V) (d : Dict V) → P (k, v) → All P d → All P (insert k v d)
    All-insert k v [] p h = (p, tt)
    All-insert k v ((i, w) ∷ d) p h = elim (Bool-cases (i == k)) [
      | inl e ↦ rw e (rw ((eq_iff i k).0 e) p, h.1)
      | inr e ↦ rw e (h.0, All-insert k v d p h.1)
    ]

    pub All-filter : (keep : String × V → Bool) (d : Dict V) → All P d → All P (filter keep d)
    All-filter keep [] h = tt
    All-filter keep ((i, w) ∷ d) h = elim (Bool-cases (keep (i, w))) [
      | inl e ↦ rw e (h.0, All-filter keep d h.1)
      | inr e ↦ rw e (All-filter keep d h.1)
    ]
