-- ===== src/Numeric/Samples.antt =====
-- Concrete values of the interfaces, at which the theorems are applied: a float is the pattern of
-- the sample that it stands for, and a ring is a list of floats with a capacity.
use overwitch.Prelude.{ℕ, ◌+◌, ◌-◌, ◌*◌, ◌/◌, ◌%◌, ◌^◌, ◌<◌, ◌≡◌, ◌==◌, refl, false, arith, ltb}
use overwitch.Numeric.{Floats, SimpleSrc, Doubles}

pub to_int32_small : (x : ℕ) → x % 2 ^ 32 < 2 ^ 32
to_int32_small x = omega arith

abbrev pub plain_floats : Floats
plain_floats = record {
  Float = ℕ;
  zero_float = 0;
  int32_max = 0;
  mul = λ a b. a;
  div = λ a b. a;
  of_int32 = λ w. w;
  to_int32 = λ x. x % 2 ^ 32;
  to_int32-lt = to_int32_small;
}

abbrev pub plain_src : SimpleSrc ℕ
plain_src = record {
  src_simple = λ data_in input_frames output_frames ratio channels data_out. data_out;
  length-src_simple = λ data_in input_frames output_frames ratio channels data_out. refl;
}

pub ltb_irrefl : (x : ℕ) → ltb x x ≡ false
ltb_irrefl x = ground arith

-- A double is a number of millionths; nothing is below 0.
abbrev pub plain_doubles : Doubles
plain_doubles = record {
  Double = ℕ;
  lit = λ n d. n * 1_000_000 / d;
  pi = 3_141_593;
  add = λ x y. x + y;
  sub = λ x y. x - y;
  mul = λ x y. x * y / 1_000_000;
  div = λ x y. x * 1_000_000 / y;
  neg = λ x. 0;
  exp = λ x. 1_000_000;
  ldexp = λ x n. x * 2 ^ n;
  lt = ltb;
  equal = λ x y. x == y;
  of_uint = λ n. n * 1_000_000;
  of_int32 = λ n. n * 1_000_000;
  to_int32 = λ x. x / 1_000_000 % 2 ^ 32;
  to_uint32 = λ x. x / 1_000_000 % 2 ^ 32;
  floor_int32 = λ x. x / 1_000_000 % 2 ^ 32;
  abs_int = λ x. x / 1_000_000;
  lt_irrefl = ltb_irrefl;
}
