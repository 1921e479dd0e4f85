-- ===== src/Engine/Valid/Init.antt =====
-- `ow_engine_init_mem` establishes the invariant.
use overwitch.Prelude.{
  ℕ, zero, suc, ◌*◌, ◌/◌, ◌^◌, ◌≤◌, ◌<◌, ◌≡◌, refl, ◌∙◌, List, [], ◌∷◌, All, arith, length,
  replicate, length-replicate,
}
use mathlib.Core.Path.{subst}
use native.Mathlib.Nat.{mod-eq_of_lt}
use overwitch.Prelude.Words.{u32}
use overwitch.Numeric.{Floats}
use overwitch.Device.{Track, inputs, outputs, get_frame_size_from_desc_tracks}
use overwitch.Device.Size.{frame_size-cons}
use overwitch.Engine.Blocks.Written.{HasSampleSize}
use overwitch.Engine.Status.{ok, ok_of_guard}
use overwitch.Engine.State.{Engine}
use overwitch.Engine.Memory.{alloc, measure, init_mem}
use overwitch.Engine.Valid.Defs.{IsValid}

All-replicate : {A : Type 0} (P : A → Type 0) (n : ℕ) (a : A) → P a → All P (replicate n a)
All-replicate P zero a h = tt
All-replicate P (suc n) a h = (h, All-replicate P n a h)

frame_size_pos :
    (ts : List Track)
    → All HasSampleSize ts
    → 0 < length ts
    → 0 < get_frame_size_from_desc_tracks ts
frame_size_pos [] so h = absurd (omega arith)
frame_size_pos (t ∷ ts) so h = omega (arith, frame_size-cons t ts, so.0)

-- The number of samples in a transfer fits in an `unsigned int`.
samples_fit :
    (blocks frames tracks : ℕ)
    → frames ≡ 7 * blocks
    → blocks ≤ 2 ^ 20
    → tracks ≤ 64
    → u32 (frames * tracks) ≡ frames * tracks
samples_fit blocks frames tracks f b t = mod-eq_of_lt small
  where
    bound : frames * tracks ≤ 7340032 * 64
    bound = grind arith

    small : frames * tracks < 2 ^ 32
    small = omega (arith, bound)

module _ (F : Floats) {Ring : Type 0} where
  open F use {Float, zero_float}

  alloc-IsValid :
      (e : Engine Float Ring)
      → All HasSampleSize e.desc.output_tracks
      → All HasSampleSize e.desc.input_tracks
      → 0 < outputs e.desc
      → 0 < inputs e.desc
      → outputs e.desc ≤ 64
      → inputs e.desc ≤ 64
      → e.blocks_per_transfer ≤ 2 ^ 20
      → e.frames_per_transfer ≡ 7 * e.blocks_per_transfer
      → e.o2h_frame_size ≡ get_frame_size_from_desc_tracks e.desc.output_tracks
      → e.h2o_frame_size ≡ get_frame_size_from_desc_tracks e.desc.input_tracks
      → IsValid F (alloc F e)
  unfolding alloc
  alloc-IsValid e so si po pi lo li b f fo fi = record {
    frames = f;
    in_blocks = length-replicate e.blocks_per_transfer _;
    out_blocks = length-replicate e.blocks_per_transfer _;
    in_fits =
        All-replicate _ e.blocks_per_transfer _
          (omega (arith, length-replicate {A = ℕ} (7 * e.o2h_frame_size) 0));
    out_fits =
        All-replicate _ e.blocks_per_transfer _
          (omega (arith, length-replicate {A = ℕ} (7 * e.h2o_frame_size) 0));
    in_sizes = so;
    out_sizes = si;
    o2h_frame = fo;
    h2o_frame = fi;
    o2h_some = omega (arith, frame_size_pos e.desc.output_tracks so po);
    h2o_some = omega (arith, frame_size_pos e.desc.input_tracks si pi);
    o2h_size = omega (arith, o2h);
    h2o_size = omega (arith, h2o);
    o2h_buf =
        length-replicate (u32 (e.frames_per_transfer * outputs e.desc) * 4 / 4) zero_float
        ∙ omega (arith, o2h);
    h2o_buf =
        length-replicate (u32 (e.frames_per_transfer * inputs e.desc) * 4 / 4) zero_float
        ∙ omega (arith, h2o);
    resampler_buf =
        length-replicate (u32 (e.frames_per_transfer * inputs e.desc) * 4 / 4) zero_float
        ∙ omega (arith, h2o);
    counter = omega arith;
  }
    where
      o2h : u32 (e.frames_per_transfer * outputs e.desc) ≡ e.frames_per_transfer * outputs e.desc
      o2h = samples_fit e.blocks_per_transfer e.frames_per_transfer (outputs e.desc) f b lo

      h2o : u32 (e.frames_per_transfer * inputs e.desc) ≡ e.frames_per_transfer * inputs e.desc
      h2o = samples_fit e.blocks_per_transfer e.frames_per_transfer (inputs e.desc) f b li

  -- On a device with samples of three or four bytes in at least one and at most 64 tracks each
  -- way, and with at most `2 ^ 20` blocks in a transfer, what `ow_engine_init_mem` accepts has
  -- buffers of the right sizes.
  pub init_mem-IsValid :
      (e : Engine Float Ring) (blocks : ℕ) {e' : Engine Float Ring}
      → All HasSampleSize e.desc.output_tracks
      → All HasSampleSize e.desc.input_tracks
      → 0 < outputs e.desc
      → 0 < inputs e.desc
      → outputs e.desc ≤ 64
      → inputs e.desc ≤ 64
      → blocks ≤ 2 ^ 20
      → init_mem F e blocks ≡ ok e'
      → IsValid F e'
  unfolding init_mem
  init_mem-IsValid e blocks so si po pi lo li b h =
      let (fine, same) = ok_of_guard _ _ h in
      subst (IsValid F) same (
        alloc-IsValid (measure F e blocks) so si po pi lo li b (mod-eq_of_lt (omega arith)) refl
          refl)
