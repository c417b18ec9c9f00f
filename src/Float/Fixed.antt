-- ===== src/Float/Fixed.antt =====
-- Numbers with six decimals: an instance that meets the laws of `IsIeee`.
use distributed_rate_limiter.Base.{ℕ, ◌+◌, ◌-◌, ◌*◌, ◌/◌, arith, leb, tests}
use distributed_rate_limiter.Base.Int.{pos, ◌+ℤ◌}
use distributed_rate_limiter.Float.{Float, IsIeee}

abbrev pub fixed : Float
fixed = record {
  F = ℕ;
  of_int = λ n. n * 1000000;
  add = λ a b. a + b;
  sub = λ a b. a - b;
  mul = λ a b. a * b / 1000000;
  div = λ a b. a * 1000000 / b;
  le = leb;
  floor = λ a. pos (a / 1000000);
  ceil = λ a. pos ((a + 999999) / 1000000);
}

pub fixed-IsIeee : IsIeee fixed
unfolding ◌+ℤ◌
fixed-IsIeee = record {
  le_refl = λ a. ground arith;
  le_trans = λ a b c h k. ground arith;
  le_total = λ a b h. ground arith;
  le_antisymm = λ a b h k. ground arith;
  of_int_mono = λ m n h. ground arith;
  add_nonneg = λ a b h k. ground arith;
  mul_nonneg = λ a b h k. ground arith;
  div_nonneg = λ a b h k. ground arith;
  sub_nonneg = λ a b h. ground arith;
  sub_le = λ a b h. ground arith;
  floor_mono = λ a b h. omega tests;
  floor_of_int = λ n h. ground arith;
  floor_galois = λ n a h. (λ k. omega tests, λ k. omega tests);
  floor_sub_one = λ a h k. ground arith;
  add_zero = λ a. omega arith;
  zero_rate = λ r h. ground arith;
}
