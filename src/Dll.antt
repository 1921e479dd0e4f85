-- ===== src/Dll.antt =====
-- The delay-locked loop, src/dll.c and src/dll.h. The floating-point operations are a parameter.
pub mod Frames
pub mod Ratio
pub mod Tests
use overwitch.Prelude.{ℕ, ◌+◌, ◌-◌, ◌%◌, ◌^◌, Bool, true, false, if◌then◌else◌}
use overwitch.Prelude.Words.{u32}
use overwitch.Numeric.{Doubles}

module _ (N : Doubles) where
  open N use {
    Double, lit, pi, add, sub, mul, div, neg, exp, ldexp, lt, of_uint, of_int32, to_int32,
    to_uint32, floor_int32, abs_int,
  }

  -- `struct instant`
  pub record Instant : Type 0 where
    pub time : Double
    pub frames : ℕ

  -- `struct ow_dll_overbridge`
  pub record DllOverbridge : Type 0 where
    pub i0 : Instant
    pub i1 : Instant
    pub dt : Double
    pub w1 : Double
    pub w2 : Double
    pub boot : Bool

  -- `struct ow_dll`
  pub record Dll : Type 0 where
    pub ratio : Double
    pub max_ratio : Double
    pub min_ratio : Double
    pub frames : ℕ
    pub w0 : Double
    pub w1 : Double
    pub w2 : Double
    pub target_delay : ℕ
    pub z1 : Double
    pub z2 : Double
    pub z3 : Double
    pub t_quantum : Double
    pub err : Double
    pub i0 : Instant
    pub i1 : Instant
    pub dll_overbridge : DllOverbridge
    pub boot : Bool

  -- `UINT64_USEC_TO_DOUBLE_SEC`: the lowest 28 bits, in seconds.
  abbrev pub usec_to_sec : ℕ → Double
  usec_to_sec t = mul (lit 1 1_000_000) (of_uint (t % 2 ^ 28))

  -- `MODTIME_THRESHOLD`
  abbrev pub modtime_threshold : Double
  modtime_threshold = lit 200 1

  unfoldable pub wrap_time : Double → Double → Double
  wrap_time d q =
      let d' : Double = if lt d (neg modtime_threshold) then add d q else d in
      if lt modtime_threshold d' then sub d' q else d'

  -- `ow_dll_overbridge_init`
  unfoldable pub overbridge_init : Double → ℕ → Dll → Dll
  overbridge_init samplerate frames dll =
      let dt : Double = div (of_uint frames) samplerate in
      let w : Double = mul (mul (mul (lit 2 1) pi) (lit 1 10)) dt in
      let ob = dll.dll_overbridge in
      record dll { dll_overbridge = record ob { dt = dt; w1 = mul (lit 16 10) w; w2 = mul w w } }

  -- The first update: both instants start at the time of the call.
  unfoldable pub overbridge_boot : Double → ℕ → DllOverbridge → DllOverbridge
  overbridge_boot time frames ob =
      if ob.boot
      then record ob {
        i0 = record { time = time; frames = 0 };
        i1 = record { time = add time ob.dt; frames = frames };
        boot = false;
      }
      else ob

  -- The error of the prediction, and the time of the prediction that it is taken from.
  unfoldable pub overbridge_error : Double → Double → Double → Double × Double
  overbridge_error t_quantum time predicted =
      let e : Double = sub time predicted in
      if lt e (neg modtime_threshold)
      then (sub predicted t_quantum, sub time (sub predicted t_quantum))
      else (predicted, e)

  -- `ow_dll_overbridge_update`
  unfoldable pub overbridge_update : Dll → ℕ → ℕ → Dll
  unfolding overbridge_boot overbridge_error
  overbridge_update dll frames t =
      let time : Double = usec_to_sec t in
      let ob = overbridge_boot time frames dll.dll_overbridge in
      let (predicted, e) = overbridge_error dll.t_quantum time ob.i1.time in
      record dll {
        dll_overbridge = record ob {
          i0 = record { time = predicted; frames = ob.i1.frames };
          i1 = record {
            time = add predicted (add (mul ob.w1 e) ob.dt);
            frames = u32 (ob.i1.frames + frames);
          };
          dt = add ob.dt (mul ob.w2 e);
        };
      }

  -- `a - b` of two `uint32_t`, as the `int32_t` of that pattern.
  abbrev pub diff32 : ℕ → ℕ → ℕ
  diff32 a b = u32 (a + 2 ^ 32 - b)

  -- `ow_dll_host_update_error`
  unfoldable pub host_update_error : Dll → ℕ → Dll
  unfolding wrap_time
  host_update_error dll t =
      let time : Double = usec_to_sec t in
      let dn = wrap_time (sub time dll.i0.time) dll.t_quantum in
      let dd = wrap_time (sub dll.i1.time dll.i0.time) dll.t_quantum in
      let delta_overbridge : Double =
        div (mul (of_int32 (diff32 dll.i1.frames dll.i0.frames)) dn) dd in
      let e : Double =
        sub (add (of_int32 (diff32 dll.i0.frames dll.frames)) delta_overbridge)
          (of_int32 dll.target_delay) in
      if dll.boot
      then (let n : ℕ = floor_int32 (add e (lit 5 10)) in
          record dll { frames = u32 (dll.frames + n); err = sub e (of_int32 n); boot = false })
      else record dll { err = e }

  -- `ow_dll_host_update`, with whether the ratio was out of bounds.
  unfoldable pub host_update : Dll → Dll × Bool
  host_update dll =
      let z1 : Double = add dll.z1 (mul dll.w0 (sub (mul dll.w1 dll.err) dll.z1)) in
      let z2 : Double = add dll.z2 (mul dll.w0 (sub z1 dll.z2)) in
      let z3 : Double = add dll.z3 (mul dll.w2 z2) in
      let ratio : Double = sub (sub (lit 1 1) z2) z3 in
      let d = record dll { z1 = z1; z2 = z2; z3 = z3; ratio = ratio } in
      if lt dll.max_ratio ratio
      then (record d { ratio = dll.max_ratio }, true)
      else if lt ratio dll.min_ratio
      then (record d { ratio = dll.min_ratio }, true)
      else (d, false)

  -- `ow_dll_host_init`
  unfoldable pub host_init : Dll → Dll
  host_init dll =
      let ob = dll.dll_overbridge in
      record dll {
        boot = true;
        t_quantum = ldexp (lit 1 1_000_000) 28;
        dll_overbridge = record ob { boot = true };
      }

  -- `MAX_RATIO_ERROR`
  abbrev pub max_ratio_error : Double
  max_ratio_error = lit 2 1

  -- `ow_dll_host_reset`. The minus of `-input_frames` is that of `uint32_t`.
  unfoldable pub host_reset : Dll → Double → Double → ℕ → ℕ → Dll
  host_reset dll output_samplerate input_samplerate output_frames input_frames =
      let ratio : Double = div output_samplerate input_samplerate in
      record dll {
        z1 = lit 0 1;
        z2 = lit 0 1;
        z3 = lit 0 1;
        ratio = ratio;
        max_ratio = mul ratio max_ratio_error;
        min_ratio = div ratio max_ratio_error;
        frames = to_uint32 (div (of_uint (u32 (2 ^ 32 - input_frames))) ratio);
        target_delay =
            to_int32 (
              add (mul (lit 2 1) (of_uint input_frames)) (mul (lit 15 10) (of_uint output_frames)));
      }

  -- `ow_dll_host_set_loop_filter`
  unfoldable pub host_set_loop_filter : Dll → Double → ℕ → Double → Dll
  host_set_loop_filter dll bw output_frames output_samplerate =
      let w : Double =
        div (mul (mul (mul (mul (lit 2 1) pi) (lit 20 1)) bw) (of_uint output_frames))
          output_samplerate in
      let w' : Double = div (mul (mul (mul (lit 2 1) pi) bw) dll.ratio) output_samplerate in
      record dll {
        w0 = sub (lit 1 1) (exp (neg w));
        w1 = mul w' (lit 16 10);
        w2 = div (mul w' (of_uint output_frames)) (lit 16 10);
      }

  -- `ow_dll_host_load_dll_overbridge`
  unfoldable pub host_load_dll_overbridge : Dll → Dll
  host_load_dll_overbridge dll = record dll {
    i0 = dll.dll_overbridge.i0;
    i1 = dll.dll_overbridge.i1;
  }

  -- `ow_dll_tuned`. `abs` is the function of stdlib.h on `int`, so the error is cut to one first.
  unfoldable pub is_tuned : Dll → Double → Bool
  is_tuned dll e = lt (of_uint (abs_int dll.err)) e
