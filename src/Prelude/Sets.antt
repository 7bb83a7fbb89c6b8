-- ===== src/Prelude/Sets.antt =====
-- A Python set of strings; its order is not observed.
use Prim.Native.String.{String}
use text.Mathlib.Text.{◌==◌}
use text.Mathlib.TextEquality.{eq_iff}
use mathlib.Core.Path.{◌≡◌}
use mathlib.Core.Bool.{Bool, false, not, ◌||◌}
use mathlib.Core.List.{List, [], ◌∷◌}
use native.Mathlib.Omega.{arith}
use momentum_system.Prelude.Tests.{if◌then◌else◌}
use momentum_system.Prelude.Lists.{filter}

-- `x in s`
abbrev pub mem : String → List String → Bool
mem x [] = false
mem x (y ∷ ys) = (y == x) || mem x ys

-- `s.add(x)`
abbrev pub add : String → List String → List String
add x ys = if mem x ys then ys else x ∷ ys

-- `s.discard(x)`
abbrev pub discard : String → List String → List String
discard x ys = filter (λ y. not (y == x)) ys

-- `s - t`
abbrev pub difference : List String → List String → List String
difference xs ys = filter (λ x. not (mem x ys)) xs

pub mem-add : (x y : String) (ys : List String) → mem x (add y ys) ≡ ((y == x) || mem x ys)
mem-add x y ys = ground (arith, eq_iff y x)
