-- ===== src/Tests/Fixed.antt =====
-- A `Float` that runs: ten-thousandths, in which a difference below zero is zero.
use native.Mathlib.Nat.{
  div-mul-le_self, le-div_iff_mul-le, mul-le-mul_right, le_of_mul-le-mul_right,
}
use momentum_system.Prelude.{ℕ, ◌+◌, ◌-◌, ◌*◌, ◌/◌, ◌^◌, ◌≤◌, ◌<◌, arith}
use momentum_system.Prelude.Int.{pos, pos_part}
use momentum_system.Float.{Float, IsMonotone}

abbrev pub scale : ℕ
scale = 10000

abbrev fixed_lit : ℕ → ℕ → ℕ
fixed_lit a b = a * 10000 / b

abbrev fixed_round : ℕ → ℕ → ℕ
fixed_round x k = let unit = 10 ^ (4 - k) in (x + unit / 2) / unit * unit

instance abbrev pub fixed : Float
fixed = record {
  Carrier = ℕ;
  rank = λ x. x;
  lit = fixed_lit;
  of_int = λ z. pos_part z * 10000;
  neg = λ x. 0;
  add = ◌+◌;
  sub = ◌-◌;
  mul = λ a b. a * b / 10000;
  div = λ a b. a * 10000 / b;
  micros = λ x. x * 100;
  seconds = λ z. pos_part z / 100;
  trunc = λ x. pos (x / 10000);
  round = fixed_round;
}

mul_mono : (a b c : ℕ) → a ≤ b → a * c / 10000 ≤ b * c / 10000
mul_mono a b c h = let product : a * c ≤ b * c = grind arith in omega (arith, product)

mul_mono_right : (a b c : ℕ) → a ≤ b → c * a / 10000 ≤ c * b / 10000
mul_mono_right a b c h = let product : c * a ≤ c * b = grind arith in omega (arith, product)

div_mono : (a b c : ℕ) → 0 < c → a ≤ b → a * 10000 / c ≤ b * 10000 / c
div_mono a b c p h = (le-div_iff_mul-le p).1 (omega (arith, div-mul-le_self (a * 10000) c))

fixed_lit_mono : (a b c d : ℕ) → 0 < b → 0 < d → a * d ≤ c * b → a * 10000 / b ≤ c * 10000 / d
fixed_lit_mono a b c d hb hd h =
    (le-div_iff_mul-le hd).1 (scaled (a * 10000 / b) (div-mul-le_self (a * 10000) b))
  where
    scaled : (q : ℕ) → q * b ≤ a * 10000 → q * d ≤ c * 10000
    scaled q e =
        let left : q * b * d ≤ a * 10000 * d = mul-le-mul_right d e in
        let right : a * d * 10000 ≤ c * b * 10000 = mul-le-mul_right 10000 h in
        let all : q * d * b ≤ c * 10000 * b = grind arith in le_of_mul-le-mul_right all hb

pub fixed-IsMonotone : IsMonotone
fixed-IsMonotone = record {
  sub_right = λ a b c h. omega arith;
  add_left = λ a b c h. omega arith;
  add_right = λ a b c h. omega arith;
  mul_right = λ a b c p h. mul_mono_right a b c h;
  lit_mono = fixed_lit_mono;
  mul_left = λ a b c p h. mul_mono a b c h;
  div_left = λ a b c p h. div_mono a b c p h;
}
