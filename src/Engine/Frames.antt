-- ===== src/Engine/Frames.antt =====
-- What `set_usb_output_data_blks` of src/engine.c takes out of the host-to-device ring, whose
-- frames have four bytes for each input track.
use native.Mathlib.Nat.{mul-sub, mul_comm, div-add-mod}
use overwitch.Prelude.{
  ℕ, ◌+◌, ◌-◌, ◌*◌, ◌/◌, ◌%◌, ◌≤◌, ◌<◌, ◌≡◌, refl, ap, ◌∙◌, true, false, ◌&&◌, List, [], ◌∷◌, All,
  Runs, Runs-some, Runs-if, Runs-bind, Runs-both, arith, leb, ltb, length, leb→le, store,
}
use overwitch.Numeric.{Floats, SimpleSrc}
use overwitch.Device.{Track, inputs, get_frame_size_from_desc_tracks}
use overwitch.Device.Size.{frame_size-cons, frame_size-nil}
use overwitch.Engine.Rings.{Rings}
use overwitch.Engine.Status.{is_run, run}
use overwitch.Engine.State.{Engine, h2o_audio_option, has_option}
use overwitch.Engine.Input.{div?, raise}
use overwitch.Engine.Output.{
  bytes_to_frame_bytes, write_usb_output_blocks, begin_reading, stretch, take_transfer,
  set_usb_output_data_blks,
}
use overwitch.Engine.Valid.Defs.{IsValid}
use overwitch.Engine.Valid.Moves.{
  div?-Runs, div-mul-le, read-store, begin_reading-IsValid, take_transfer-IsValid, silent-IsValid,
  write_usb_output_blocks_lem, bytes_to_frame_bytes-Runs,
}

-- `n` bytes are whole frames of `m` bytes.
abbrev pub IsWhole : ℕ → ℕ → Type 0
IsWhole m n = (k : ℕ) × (n ≡ k * m)

sub-mul : (k j m : ℕ) → (k - j) * m ≡ k * m - j * m
sub-mul k j m = rw (mul_comm (k - j) m, mul-sub m k j, mul_comm m k, mul_comm m j)

IsWhole-sub :
    (m n rest : ℕ) (taken : ℕ) → IsWhole m n → IsWhole m taken → rest + taken ≡ n → IsWhole m rest
IsWhole-sub m n rest taken (k, e) (j, f) h = (k - j, omega (arith, sub-mul k j m, e, f))

left : (n b rest taken : ℕ) → taken ≡ n / b * b → rest + taken ≡ n → rest ≡ n % b
left n b rest taken e h = omega (arith, div-add-mod n b)

four_bytes :
    (ts : List Track)
    → All (λ t. t.size ≡ 4) ts
    → get_frame_size_from_desc_tracks ts ≡ 4 * length ts
four_bytes [] h = omega (arith, frame_size-nil)
four_bytes (t ∷ ts) h = omega (arith, frame_size-cons t ts, four_bytes ts h.1)

module _ (F : Floats) (R : Rings F.Float) (S : SimpleSrc F.Float) where
  open F use {Float}
  open R use {Ring, read_space, read, skip, read_space-skip, read_space-read}

  abbrev pub HasWholeFrames : Engine Float Ring → Type 0
  HasWholeFrames e = IsWhole (4 * inputs e.desc) (read_space e.h2o_audio)

  module _ (e : Engine Float Ring) (v : IsValid F e)
      (all : All (λ t. t.size ≡ 4) e.desc.input_tracks) (whole : HasWholeFrames e) where
    -- Here the frames of a block have the same size as those of the ring.
    rounded :
        (m : ℕ)
        → m ≡ read_space e.h2o_audio / e.h2o_frame_size * e.h2o_frame_size
        → IsWhole (4 * inputs e.desc) m
    rounded m h = (
      _,
      h
          ∙ ap (λ b. read_space e.h2o_audio / e.h2o_frame_size * b)
              (v.h2o_frame ∙ four_bytes e.desc.input_tracks all),
    )

    begin_reading-HasWholeFrames :
        Runs (begin_reading F R S (read_space e.h2o_audio) e) HasWholeFrames
    unfolding begin_reading
    begin_reading-HasWholeFrames =
        Runs-if _ (leb e.h2o_transfer_size (read_space e.h2o_audio) && is_run e.status) _ _
          (λ _.
            Runs-bind _ (bytes_to_frame_bytes (read_space e.h2o_audio) e.h2o_frame_size) _ _
              (bytes_to_frame_bytes-Runs (read_space e.h2o_audio) e.h2o_frame_size v.h2o_some)
              (λ bytes h. Runs-some _ _ (
                IsWhole-sub _ _ _ bytes whole (rounded bytes h.1)
                  (read_space-skip e.h2o_audio bytes h.0))))
          (λ _. Runs-some _ e whole)

    stretch-HasWholeFrames :
        read_space e.h2o_audio < e.h2o_transfer_size
        → Runs (stretch F R S (read_space e.h2o_audio) e) HasWholeFrames
    unfolding stretch
    stretch-HasWholeFrames h =
        Runs-bind _ (div? (read_space e.h2o_audio) e.h2o_frame_size) _ _ (div?-Runs _ _ v.h2o_some)
          (λ frames q.
            let n : ℕ = frames * e.h2o_frame_size in
            let below : n ≤ read_space e.h2o_audio = rw q (div-mul-le _ _) in
            Runs-bind _ (store e.h2o_resampler_buf (read e.h2o_audio n).0) _
              (λ buf. length buf ≡ length e.h2o_resampler_buf)
              (read-store F R S e.h2o_audio n e.h2o_resampler_buf below (omega (arith, v)))
              (λ buf _. Runs-some _ _ (
                IsWhole-sub _ _ _ n whole (rounded n (ap (λ k. k * e.h2o_frame_size) q))
                  (read_space-read e.h2o_audio n below))))

  write_usb_output_blocks-ring :
      (e : Engine Float Ring)
      → IsValid F e
      → Runs (write_usb_output_blocks F R S e) (λ e'.
        (e'.desc ≡ e.desc)
        × (e'.h2o_audio ≡ e.h2o_audio)
        × (e'.reading_at_h2o_end ≡ e.reading_at_h2o_end))
  write_usb_output_blocks-ring e v =
      rw (write_usb_output_blocks_lem F R S e v) (Runs-some _ _ (refl, refl, refl))

  write_usb_output_blocks-HasWholeFrames :
      (e : Engine Float Ring)
      → IsValid F e
      → HasWholeFrames e
      → Runs (write_usb_output_blocks F R S e) HasWholeFrames
  write_usb_output_blocks-HasWholeFrames e v whole =
      rw (write_usb_output_blocks_lem F R S e v) (Runs-some _ _ whole)

  module _ (e : Engine Float Ring) (v : IsValid F e)
      (all : All (λ t. t.size ≡ 4) e.desc.input_tracks) (whole : HasWholeFrames e) where
    take_transfer-HasWholeFrames :
        Runs (take_transfer F R S (read_space e.h2o_audio) e) HasWholeFrames
    unfolding take_transfer
    take_transfer-HasWholeFrames =
        let n : ℕ = read_space e.h2o_audio in
        Runs-bind _ (div? n e.h2o_frame_size) _ _ (div?-Runs _ _ v.h2o_some) (λ latency _.
          let e' = record e {
            latency_h2o = latency;
            latency_h2o_max = raise e.latency_h2o_max latency;
          } in
          let v' : IsValid F e' = ground arith in
          Runs-if _ (leb e.h2o_transfer_size n) _ _
            (λ enough.
              Runs-bind _ (store e.h2o_transfer_buf (read e.h2o_audio e.h2o_transfer_size).0) _
                (λ buf. length buf ≡ length e.h2o_transfer_buf)
                (read-store F R S e.h2o_audio e.h2o_transfer_size e.h2o_transfer_buf
                  (leb→le _ _ enough) (omega (arith, v)))
                (λ buf _. Runs-some _ _ (
                  IsWhole-sub _ _ _ e.h2o_transfer_size whole transfer
                    (read_space-read e.h2o_audio e.h2o_transfer_size (leb→le _ _ enough)))))
            (λ few.
              Runs-if _ (ltb e.h2o_frame_size n) _ _
                (λ _. stretch-HasWholeFrames e' v' all whole (ground arith))
                (λ _. Runs-some _ _ whole)))
      where
        transfer : IsWhole (4 * inputs e.desc) e.h2o_transfer_size
        transfer = (e.frames_per_transfer, omega (arith, v))

  -- From a valid engine on a device whose input tracks all have four bytes, with whole frames in
  -- the ring, a callback of the host-to-device side returns and leaves whole frames in the ring,
  -- on every branch.
  pub set_usb_output_data_blks-HasWholeFrames :
      (e : Engine Float Ring)
      → IsValid F e
      → All (λ t. t.size ≡ 4) e.desc.input_tracks
      → HasWholeFrames e
      → Runs (set_usb_output_data_blks F R S e) HasWholeFrames
  unfolding set_usb_output_data_blks
  set_usb_output_data_blks-HasWholeFrames e v all whole =
      Runs-if _ (has_option e.options h2o_audio_option) _ _
        (λ _.
          Runs-bind _ _ _ _
            (Runs-if _ e.reading_at_h2o_end _ _
              (λ _.
                Runs-both _ _ _ (take_transfer-IsValid F R S e v)
                  (take_transfer-HasWholeFrames e v all whole))
              (λ _.
                Runs-both _ _ _ (begin_reading-IsValid F R S _ e v)
                  (begin_reading-HasWholeFrames e v all whole)))
            (λ e' h. write_usb_output_blocks-HasWholeFrames e' h.0 h.1))
        (λ _.
          Runs-if _ e.reading_at_h2o_end _ _
            (λ _. write_usb_output_blocks-HasWholeFrames _ (silent-IsValid F R S e v) whole)
            (λ _. Runs-some _ e whole))

  begin_reading_leaves :
      (e : Engine Float Ring)
      → IsValid F e
      → e.status ≡ run
      → e.h2o_transfer_size ≤ read_space e.h2o_audio
      → Runs (begin_reading F R S (read_space e.h2o_audio) e) (λ e'.
        (e'.reading_at_h2o_end ≡ true)
        × (read_space e'.h2o_audio ≡ read_space e.h2o_audio % e.h2o_frame_size))
  unfolding begin_reading
  begin_reading_leaves e v running enough =
      Runs-if _ (leb e.h2o_transfer_size (read_space e.h2o_audio) && is_run e.status) _ _
        (λ _.
          Runs-bind _ (bytes_to_frame_bytes (read_space e.h2o_audio) e.h2o_frame_size) _ _
            (bytes_to_frame_bytes-Runs (read_space e.h2o_audio) e.h2o_frame_size v.h2o_some)
            (λ bytes h.
              Runs-some _ _ (refl, left _ _ _ bytes h.1 (read_space-skip e.h2o_audio bytes h.0))))
        (λ bad. absurd (ground arith))

  -- From a valid engine that runs, with its host-to-device side enabled and not yet read, and at
  -- least a transfer in the ring: a callback returns, begins to read, and leaves in the ring the
  -- remainder of what it held by the frame size of a USB block, whatever the frame size of the
  -- ring is.
  begin_leaves_remainder :
      (e : Engine Float Ring)
      → IsValid F e
      → has_option e.options h2o_audio_option ≡ true
      → e.reading_at_h2o_end ≡ false
      → e.status ≡ run
      → e.h2o_transfer_size ≤ read_space e.h2o_audio
      → Runs (set_usb_output_data_blks F R S e) (λ e'.
        (e'.reading_at_h2o_end ≡ true)
        × (read_space e'.h2o_audio ≡ read_space e.h2o_audio % e.h2o_frame_size))
  unfolding set_usb_output_data_blks
  begin_leaves_remainder e v on idle running enough =
      Runs-if _ (has_option e.options h2o_audio_option) _ _
        (λ _.
          Runs-bind _ _ _ _
            (Runs-if _ e.reading_at_h2o_end _ _ (λ busy. absurd (cc))
              (λ _.
                Runs-both _ _ _ (begin_reading-IsValid F R S _ e v)
                  (begin_reading_leaves e v running enough)))
            (λ e' h.
              let (e'', r, p) = write_usb_output_blocks-ring e' h.0 in
              (e'', r, (p.2 ∙ h.1.0, ap read_space p.1 ∙ h.1.1))))
        (λ off. absurd (cc))
