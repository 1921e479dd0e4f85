-- ===== src/Engine/Valid/Moves.antt =====
-- The callbacks of the two directions never go out of bounds and keep the invariant.
use overwitch.Prelude.{
  ℕ, ◌+◌, ◌*◌, ◌/◌, ◌&&◌, ◌≤◌, ◌<◌, ◌≡◌, refl, ap, sym, ◌∙◌, false, Runs, Runs-some, Runs-if,
  Runs-bind, if◌then◌else◌, some, List, arith, leb, ltb, leb→le, length, length-replicate, store,
  store_all, length-store,
}
use overwitch.Prelude.Words.{u16}
use overwitch.Numeric.{Floats, SimpleSrc}
use overwitch.Device.{inputs, outputs}
use overwitch.Engine.Blocks.Readable.{read_blocks_total}
use overwitch.Engine.Blocks.Written.{encode_blocks, write_blocks_lem, encode_blocks-Fits}
use overwitch.Engine.Blocks.{read_blocks}
use overwitch.Engine.Rings.{Rings}
use overwitch.Engine.Status.{level, run, is_run}
use overwitch.Engine.State.{Engine}
use overwitch.Engine.Input.{
  div?, raise, read_usb_input_blocks, publish_input, set_usb_input_data_blks,
}
use overwitch.Engine.Output.{
  bytes_to_frame_bytes, silence, write_usb_output_blocks, begin_reading, stretch, take_transfer,
}
use overwitch.Engine.Valid.Defs.{IsValid}

pub div?-Runs : (a b : ℕ) → 0 < b → Runs (div? a b) (λ q. q ≡ a / b)
unfolding div?
div?-Runs a b h = (a / b, ground arith, refl)

samples_eq : (f b n o : ℕ) → f ≡ 7 * b → n ≡ b → n * (7 * o) ≡ f * o
samples_eq f b n o p q = omega (arith, ap (λ (t : ℕ). t * o) p, ap (λ (t : ℕ). t * o) q)

module _ (F : Floats) (R : Rings F.Float) where
  open F use {Float}
  open R use {Ring, read_space, write_space}

  -- The engine is as it was but for the buffer, which holds what the blocks said.
  pub read_usb_input_blocks-decoded :
      (hv : ℕ) (e : Engine Float Ring)
      → IsValid F e
      → (fs : List Float) × (read_blocks F e.desc.type e.desc.output_tracks hv e.xfr_audio_in_data
          ≡ some fs)
        × (read_usb_input_blocks F R hv e ≡ some (record e { o2h_transfer_buf = fs }))
        × IsValid F (record e { o2h_transfer_buf = fs })
  unfolding read_usb_input_blocks
  read_usb_input_blocks-decoded hv e v =
      let (fs, r, l) =
        read_blocks_total F e.desc.type e.desc.output_tracks hv e.xfr_audio_in_data v.in_sizes
          v.in_fits in
      let all : length fs ≡ e.frames_per_transfer * outputs e.desc =
        l ∙ samples_eq _ _ _ (outputs e.desc) v.frames v.in_blocks in
      (fs, r, rw r (rw (store_all e.o2h_transfer_buf fs (all ∙ sym v.o2h_buf))), ground arith)

  pub read_usb_input_blocks-IsValid :
      (hv : ℕ) (e : Engine Float Ring)
      → IsValid F e
      → (fs : List Float) × (read_usb_input_blocks F R hv e
          ≡ some (record e { o2h_transfer_buf = fs }))
        × IsValid F (record e { o2h_transfer_buf = fs })
  read_usb_input_blocks-IsValid hv e v =
      let (fs, _, r, v') = read_usb_input_blocks-decoded hv e v in (fs, r, v')

  publish_input-IsValid :
      (e : Engine Float Ring) → IsValid F e → Runs (publish_input F R e) (IsValid F)
  unfolding publish_input
  publish_input-IsValid e v =
      Runs-bind _ (div? _ e.o2h_frame_size) _ _ (div?-Runs _ _ v.o2h_some)
        (λ latency q. Runs-some _ _ (ground arith))

  -- From a valid engine, a callback of the device-to-host side returns, whatever the device sent,
  -- and leaves a valid engine.
  pub set_usb_input_data_blks-IsValid :
      {D : Type 0} (update : D → ℕ → ℕ → D) (time hv : ℕ) (dll : D) (e : Engine Float Ring)
      → IsValid F e
      → Runs (set_usb_input_data_blks F R update time hv dll e) (λ r. IsValid F r.1)
  unfolding set_usb_input_data_blks
  set_usb_input_data_blks-IsValid update time hv dll e v =
      let (fs, r, v') = read_usb_input_blocks-IsValid hv e v in
      let e' = record e { o2h_transfer_buf = fs } in
      rw r (
        Runs-bind _ (if ltb (level e.status) (level run) then some e' else publish_input F R e') _
          (IsValid F)
          (Runs-if _ (ltb (level e.status) (level run)) (some e') (publish_input F R e')
            (λ _. Runs-some _ e' v') (λ _. publish_input-IsValid e' v'))
          (λ e'' v''. Runs-some _ _ v''))

pub div-mul-le : (a b : ℕ) → a / b * b ≤ a
div-mul-le a b = grind arith

pub bytes_to_frame_bytes-Runs :
    (n b : ℕ) → 0 < b → Runs (bytes_to_frame_bytes n b) (λ m. (m ≤ n) × (m ≡ n / b * b))
unfolding bytes_to_frame_bytes
bytes_to_frame_bytes-Runs n b h =
    Runs-bind _ (div? n b) _ _ (div?-Runs n b h)
      (λ q e. Runs-some _ _ (rw e (div-mul-le n b), rw e refl))

module _ (F : Floats) (R : Rings F.Float) (S : SimpleSrc F.Float) where
  open F use {Float}
  open R use {Ring, read_space, read}
  open S use {length-src_simple}

  -- A read of bytes that are there, into an array with room for them.
  pub read-store :
      (r : Ring) (n : ℕ) (buf : List Float)
      → n ≤ read_space r
      → n / 4 ≤ length buf
      → Runs (store buf (read r n).0) (λ b. length b ≡ length buf)
  read-store r n buf h k = length-store buf (read r n).0 (omega (arith, R.length-read r n h))

  pub begin_reading-IsValid :
      (n : ℕ) (e : Engine Float Ring) → IsValid F e → Runs (begin_reading F R S n e) (IsValid F)
  unfolding begin_reading
  begin_reading-IsValid n e v =
      Runs-if _ (leb e.h2o_transfer_size n && is_run e.status) _ _
        (λ _.
          Runs-bind _ (bytes_to_frame_bytes n e.h2o_frame_size) _ _
            (bytes_to_frame_bytes-Runs n e.h2o_frame_size v.h2o_some)
            (λ bytes _. Runs-some _ _ (ground arith)))
        (λ _. Runs-some _ e v)

  stretch-IsValid :
      (e : Engine Float Ring)
      → IsValid F e
      → read_space e.h2o_audio < e.h2o_transfer_size
      → Runs (stretch F R S (read_space e.h2o_audio) e) (IsValid F)
  unfolding stretch
  stretch-IsValid e v h =
      Runs-bind _ (div? (read_space e.h2o_audio) e.h2o_frame_size) _ _ (div?-Runs _ _ v.h2o_some)
        (λ frames q.
          let n : ℕ = frames * e.h2o_frame_size in
          let below : n ≤ read_space e.h2o_audio = rw q (div-mul-le _ _) in
          Runs-bind _ (store e.h2o_resampler_buf (read e.h2o_audio n).0) _
            (λ buf. length buf ≡ length e.h2o_resampler_buf)
            (read-store e.h2o_audio n e.h2o_resampler_buf below (omega (arith, v)))
            (λ buf l. Runs-some _ _ (
              ground (
                arith,
                length-src_simple buf frames e.frames_per_transfer (e.frames_per_transfer, frames)
                    (inputs e.desc) e.h2o_transfer_buf,
              ))))

  pub take_transfer-IsValid :
      (e : Engine Float Ring)
      → IsValid F e
      → Runs (take_transfer F R S (read_space e.h2o_audio) e) (IsValid F)
  unfolding take_transfer
  take_transfer-IsValid e v =
      Runs-bind _ (div? (read_space e.h2o_audio) e.h2o_frame_size) _ _ (div?-Runs _ _ v.h2o_some)
        (λ latency _.
          let n : ℕ = e.h2o_transfer_size in
          let e' = record e {
            latency_h2o = latency;
            latency_h2o_max = raise e.latency_h2o_max latency;
          } in
          let v' : IsValid F e' = ground arith in
          Runs-if _ (leb n (read_space e.h2o_audio)) _ _
            (λ enough.
              let below : n ≤ read_space e.h2o_audio = leb→le _ _ enough in
              Runs-bind _ (store e.h2o_transfer_buf (read e.h2o_audio n).0) _
                (λ buf. length buf ≡ length e.h2o_transfer_buf)
                (read-store e.h2o_audio n e.h2o_transfer_buf below (omega (arith, v)))
                (λ buf l. Runs-some _ _ (ground arith)))
            (λ few.
              Runs-if _ (ltb e.h2o_frame_size (read_space e.h2o_audio)) _ _
                (λ _. stretch-IsValid e' v' (ground arith))
                (λ _.
                  Runs-some _ _
                    (ground (arith, length-replicate (length e.h2o_transfer_buf) F.zero_float)))))

  room_for_blocks :
      (e : Engine Float Ring)
      → IsValid F e
      → length e.xfr_audio_out_data * (7 * inputs e.desc) ≤ length e.h2o_transfer_buf
  room_for_blocks e v = omega (arith, samples_eq _ _ _ (inputs e.desc) v.frames v.out_blocks, v)

  -- `ow_engine_write_usb_output_blocks` returns, and changes the counter and the blocks alone.
  pub write_usb_output_blocks_lem :
      (e : Engine Float Ring)
      → IsValid F e
      → write_usb_output_blocks F R S e
        ≡ some (record e {
          audio_frames_counter = u16 (e.audio_frames_counter + 7 * length e.xfr_audio_out_data);
          xfr_audio_out_data =
              encode_blocks F e.desc.type e.desc.input_tracks e.audio_frames_counter
                e.h2o_transfer_buf e.xfr_audio_out_data;
        })
  unfolding write_usb_output_blocks
  write_usb_output_blocks_lem e v = rw (
      write_blocks_lem F e.desc.type e.desc.input_tracks e.audio_frames_counter e.h2o_transfer_buf
        e.xfr_audio_out_data v.out_sizes v.out_fits (room_for_blocks e v) v.counter)

  pub write_usb_output_blocks-IsValid :
      (e : Engine Float Ring) → IsValid F e → Runs (write_usb_output_blocks F R S e) (IsValid F)
  write_usb_output_blocks-IsValid e v =
      let (fit, len) =
        encode_blocks-Fits F e.desc.type e.desc.input_tracks e.audio_frames_counter
          e.h2o_transfer_buf e.xfr_audio_out_data v.out_sizes (room_for_blocks e v) in
      rw (write_usb_output_blocks_lem e v) (Runs-some _ _ (ground arith))

  pub silent-IsValid :
      (e : Engine Float Ring)
      → IsValid F e
      → IsValid F (record e {
        h2o_transfer_buf = silence F R S e.h2o_transfer_buf;
        reading_at_h2o_end = false;
        latency_h2o_max = e.latency_h2o_min;
      })
  silent-IsValid e v = ground (arith, length-replicate (length e.h2o_transfer_buf) F.zero_float)
