-- ===== src/Engine/Blocks/RoundTrip.antt =====
-- What `ow_engine_read_usb_input_blocks` makes of the blocks that
-- `ow_engine_write_usb_output_blocks` wrote, on a device with the same tracks both ways.
use native.Mathlib.Nat.{zero-mul, suc-mul, add_comm}
use overwitch.Prelude.{
  ℕ, zero, suc, ◌+◌, ◌*◌, ◌/◌, ◌^◌, ◌≤◌, ◌<◌, ◌≡◌, refl, false, ◌∙◌, ap, ap₂, Option, some, ◌>>=◌,
  List, [], ◌∷◌, ◌++◌, append_assoc, map, map-append, All, Matches, Matches-append,
  map-eq_of_Matches, arith, length, take, take-add, take-length, drop, drop-append, length-drop,
}
use overwitch.Prelude.Words.{u16}
use overwitch.Numeric.{Floats}
use overwitch.Device.{DeviceType, Track, is_type_3}
use overwitch.Engine.Sample.{encode, echo, echo_upper, read_sample-encode, length-encode}
use overwitch.Engine.Blocks.{
  UsbBlk, quantize, dequantize, read_tracks, read_frames, read_blocks, write_blocks,
}
use overwitch.Engine.Blocks.Written.{
  HasSampleSize, Fits, write_blocks_lem, le-four, encode_tracks, encode_frames, encode_blocks,
}

-- The relation `P` between a word that is read and the float that was written is a parameter:
-- it holds of every sample if it holds of `echo`.
module _ (F : Floats) (type : DeviceType) (P : ℕ → F.Float → Type 0) where
  open F use {Float, to_int32-lt, mul, int32_max}

  abbrev pub Echoes : Track → Type 0
  Echoes t = (hv : ℕ) (f : Float) → P (echo type t.size hv (quantize F f)) f

  read_tracks-encode :
      (ts : List Track) (hv : ℕ) (fs : List Float) (s : List ℕ)
      → All HasSampleSize ts
      → All Echoes ts
      → length ts ≤ length fs
      → (hv' : ℕ) × (vs : List ℕ) × (read_tracks F type ts hv (encode_tracks F type ts fs ++ s)
          ≡ some (hv', map (dequantize F) vs, s))
        × Matches P vs (take (length ts) fs)
  unfolding read_tracks
  read_tracks-encode [] hv fs s ok e h = (hv, [], refl, tt)
  read_tracks-encode (t ∷ ts) hv [] s ok e h = absurd (omega arith)
  read_tracks-encode (t ∷ ts) hv (f ∷ fs) s ok e h =
      let v = echo type t.size hv (quantize F f) in
      let (hv', vs, r, m) = read_tracks-encode ts v fs s ok.1 e.1 (omega arith) in
      (
        hv',
        v ∷ vs,
        rw (append_assoc (encode type t.size (quantize F f)) (encode_tracks F type ts fs) s) (
            rw
              (
                read_sample-encode type t.size hv (quantize F f) (encode_tracks F type ts fs ++ s)
                    ok.0 (to_int32-lt _),
                drop-append t.size (encode type t.size (quantize F f))
                    (encode_tracks F type ts fs ++ s)
                    (length-encode type t.size (quantize F f) (le-four ok.0)),
              )
              (rw r)),
        (e.0 hv f, m),
      )

  read_frames-encode :
      (ts : List Track) (j hv : ℕ) (fs : List Float)
      → All HasSampleSize ts
      → All Echoes ts
      → j * length ts ≤ length fs
      → (hv' : ℕ) × (vs : List ℕ) × (read_frames F type ts j hv (encode_frames F type ts j fs)
          ≡ some (hv', map (dequantize F) vs))
        × Matches P vs (take (j * length ts) fs)
  unfolding read_frames
  read_frames-encode ts zero hv fs ok e h = (hv, [], refl, rw zero-mul tt)
  read_frames-encode ts (suc j) hv fs ok e h =
      let (hv₁, vs, r, m) =
        read_tracks-encode ts hv fs (encode_frames F type ts j (drop (length ts) fs)) ok e
          (omega arith) in
      let (hv₂, vs', r', m') =
        read_frames-encode ts j hv₁ (drop (length ts) fs) ok e
          (omega (arith, length-drop (length ts) fs)) in
      (
        hv₂,
        vs ++ vs',
        rw r (rw r' (rw (map-append (dequantize F) vs vs'))),
        rw
            (
              suc-mul j (length ts),
              add_comm (j * length ts) (length ts),
              take-add (length ts) (j * length ts) fs,
            )
            (Matches-append P vs (take (length ts) fs) vs'
              (take (j * length ts) (drop (length ts) fs)) m m'),
      )

  read_blocks-encode :
      (ts : List Track) (hv counter : ℕ) (fs : List Float) (blks : List UsbBlk)
      → All HasSampleSize ts
      → All Echoes ts
      → length blks * (7 * length ts) ≤ length fs
      → (vs : List ℕ) × (read_blocks F type ts hv (encode_blocks F type ts counter fs blks)
          ≡ some (map (dequantize F) vs))
        × Matches P vs (take (length blks * (7 * length ts)) fs)
  unfolding read_blocks
  read_blocks-encode ts hv counter fs [] ok e h = ([], refl, rw zero-mul tt)
  read_blocks-encode ts hv counter fs (blk ∷ blks) ok e h =
      let n : ℕ = 7 * length ts in
      let (hv₁, vs, r, m) = read_frames-encode ts 7 hv fs ok e (omega arith) in
      let (vs', r', m') =
        read_blocks-encode ts hv₁ (u16 (counter + 7)) (drop n fs) blks ok e
          (omega (arith, length-drop n fs)) in
      (
        vs ++ vs',
        rw r (rw r' (rw (map-append (dequantize F) vs vs'))),
        rw (suc-mul (length blks) n, add_comm (length blks * n) n, take-add n (length blks * n) fs)
            (Matches-append P vs (take n fs) vs' (take (length blks * n) (drop n fs)) m m'),
      )

module _ (F : Floats) (type : DeviceType) where
  open F use {Float, to_int32-lt, mul, int32_max}

  -- `ow_engine_write_usb_output_blocks`, and then `ow_engine_read_usb_input_blocks` on the same
  -- blocks, as a device that echoes its input makes them run.
  abbrev pub loopback : List Track → ℕ → ℕ → List Float → List UsbBlk → Option (List Float)
  loopback ts hv counter fs blks = do
    (counter', blks') ← write_blocks F type ts counter fs blks
    read_blocks F type ts hv blks'

  module _ (ts : List Track) (hv counter : ℕ) (fs : List Float) (blks : List UsbBlk)
      (ok : All HasSampleSize ts) (fit : All (Fits F type ts) blks)
      (len : length fs ≡ length blks * (7 * length ts)) (c : counter < 2 ^ 16) where
    loopback_lem :
        (P : ℕ → Float → Type 0)
        → All (Echoes F type P) ts
        → (vs : List ℕ) × (loopback ts hv counter fs blks ≡ some (map (dequantize F) vs))
          × Matches P vs fs
    loopback_lem P e =
        let (vs, r, m) = read_blocks-encode F type P ts hv counter fs blks ok e (omega arith) in
        (
          vs,
          rw (write_blocks_lem F type ts counter fs blks ok fit (omega arith) c) r,
          rw (take-length (length blks * (7 * length ts)) fs len) at m,
        )

    echo_uppers :
        (xs : List Track)
        → All HasSampleSize xs
        → All (Echoes F type (λ v f. v / 256 ≡ quantize F f / 256)) xs
    echo_uppers [] h = tt
    echo_uppers (x ∷ xs) h =
        ((λ hv f. echo_upper type x.size hv (quantize F f) h.0), echo_uppers xs h.1)

    -- With samples of three or four bytes, blocks of the right size, as many samples to write as
    -- the blocks hold, and a counter of 16 bits, and whatever the device's type is and `hv` holds
    -- at first: writing the samples to the blocks and reading them back returns, and gives the
    -- samples of integers whose upper three bytes are those of the integers that the samples
    -- written convert to, in order.
    pub loopback_upper :
        (vs : List ℕ) × (loopback ts hv counter fs blks ≡ some (map (dequantize F) vs))
        × (map (λ v. v / 256) vs ≡ map (λ f. quantize F f / 256) fs)
    loopback_upper =
        let (vs, r, m) = loopback_lem (λ v f. v / 256 ≡ quantize F f / 256) (echo_uppers ts ok) in
        (vs, r, map-eq_of_Matches (λ v. v / 256) (λ f. quantize F f / 256) vs fs m)

    echo_exact :
        (xs : List Track)
        → is_type_3 type ≡ false
        → All (λ t. t.size ≡ 4) xs
        → All (Echoes F type (λ v f. v ≡ quantize F f)) xs
    echo_exact [] h k = tt
    echo_exact (x ∷ xs) h k = ((λ hv f. ground arith), echo_exact xs h k.1)

    -- With samples of four bytes, blocks of the right size, as many samples to write as the blocks
    -- hold, and a counter of 16 bits, on a device that is not of type 3: writing the samples to
    -- the blocks and reading them back returns, and gives for each sample its conversion to an
    -- integer and back, in order.
    pub loopback_exact :
        is_type_3 type ≡ false
        → All (λ t. t.size ≡ 4) ts
        → loopback ts hv counter fs blks ≡ some (map (λ f. dequantize F (quantize F f)) fs)
    loopback_exact h k =
        let (vs, r, m) = loopback_lem (λ v f. v ≡ quantize F f) (echo_exact ts h k) in
        r ∙ ap some (exact vs fs m)
      where
        exact :
            (vs : List ℕ) (gs : List Float)
            → Matches (λ v f. v ≡ quantize F f) vs gs
            → map (dequantize F) vs ≡ map (λ f. dequantize F (quantize F f)) gs
        exact [] [] m = refl
        exact [] (g ∷ gs) m = absurd m
        exact (v ∷ vs) [] m = absurd m
        exact (v ∷ vs) (g ∷ gs) m = ap₂ ◌∷◌ (ap (dequantize F) m.0) (exact vs gs m.1)
