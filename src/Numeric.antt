-- ===== src/Numeric.antt =====
-- The floating-point types of C, which the language here does not have: the operations that the
-- code uses, as an interface that the models take as a parameter.
pub mod Samples
use overwitch.Prelude.{Bool, false, ℕ, ◌^◌, ◌<◌, ◌≡◌, List, length}

-- `float`. `of_int32` and `to_int32` are the conversions from and to `int32_t` (a word is its bit
-- pattern); `int32_max` is `(float) INT32_MAX`.
pub record Floats : Type 1 where
  pub Float : Type 0
  pub zero_float : Float
  pub int32_max : Float
  pub mul : Float → Float → Float
  pub div : Float → Float → Float
  pub of_int32 : ℕ → Float
  pub to_int32 : Float → ℕ
  pub to_int32-lt : (f : Float) → to_int32 f < 2 ^ 32

-- `src_simple` of libsamplerate: from `data_in`, the numbers of frames at the two ends, the ratio
-- as a fraction and the channels, the new contents of `data_out`, whose bounds it keeps.
pub record SimpleSrc (Float : Type 0) : Type 0 where
  pub src_simple : List Float → ℕ → ℕ → ℕ × ℕ → ℕ → List Float → List Float
  pub length-src_simple :
      (data_in : List Float) (input_frames output_frames : ℕ) (ratio : ℕ × ℕ) (channels : ℕ)
      (data_out : List Float)
      → length (src_simple data_in input_frames output_frames ratio channels data_out)
        ≡ length data_out

-- `double`. A literal is a fraction; an `int32_t` is its bit pattern; `floor_int32` is
-- `(int) floor (x)` and `abs_int` is `abs ((int) x)`.
pub record Doubles : Type 1 where
  pub Double : Type 0
  pub lit : ℕ → ℕ → Double
  pub pi : Double
  pub add : Double → Double → Double
  pub sub : Double → Double → Double
  pub mul : Double → Double → Double
  pub div : Double → Double → Double
  pub neg : Double → Double
  pub exp : Double → Double
  pub ldexp : Double → ℕ → Double
  pub lt : Double → Double → Bool
  pub equal : Double → Double → Bool
  pub of_uint : ℕ → Double
  pub of_int32 : ℕ → Double
  pub to_int32 : Double → ℕ
  pub to_uint32 : Double → ℕ
  pub floor_int32 : Double → ℕ
  pub abs_int : Double → ℕ
  pub lt_irrefl : (x : Double) → lt x x ≡ false
