-- ===== src/Engine/Sample.antt =====
-- One sample between its float and its bytes in a USB block: the bodies of the innermost loops of
-- `ow_engine_read_usb_input_blocks` and `ow_engine_write_usb_output_blocks` in src/engine.c.
use overwitch.Prelude.{
  ℕ, ◌+◌, ◌*◌, ◌/◌, ◌%◌, ◌^◌, ◌≤◌, ◌<◌, ◌≡◌, refl, ◌⊎◌, inl, inr, false, ◌&&◌, Option, none, some,
  List, ◌++◌, arith, ltb, leb, le→leb, ◌==◌, if◌then◌else◌, length, take, drop, length-take,
}
use overwitch.Prelude.Words.{word_bytes, word_of_bytes, swap32, sar8}
use overwitch.Device.{DeviceType, type_1, type_2, type_3, is_type_3}

-- `if (type == OW_DEVICE_TYPE_3 && size == 4) v >>= 8;`
abbrev pub align : DeviceType → ℕ → ℕ → ℕ
align type size v = if is_type_3 type && size == 4 then sar8 v else v

-- `memcpy (dst, src, n)`: the bytes written and what follows them in `dst`. `none` is an access
-- out of bounds.
unfoldable pub memcpy : List ℕ → List ℕ → ℕ → Option (List ℕ × List ℕ)
memcpy dst src n =
    if leb n (length dst) && leb n (length src) then some (take n src, drop n dst) else none

abbrev join : List ℕ × List ℕ → List ℕ
join p = p.0 ++ p.1

-- A sample is read into `hv`, which keeps its other bytes from the sample before.
unfoldable pub read_sample : DeviceType → ℕ → ℕ → List ℕ → Option ℕ
unfolding memcpy
read_sample type size hv s = elim (memcpy (word_bytes hv) s size) [
  | none ↦ none
  | some p ↦ some (swap32 (align type size (word_of_bytes (join p))))
]

-- The bytes written for the word `ov`, and the block after them.
unfoldable pub write_sample : DeviceType → ℕ → ℕ → List ℕ → Option (List ℕ × List ℕ)
unfolding memcpy
write_sample type size ov s = memcpy s (word_bytes (swap32 (align type size ov))) size

-- What a reader makes of the word `ov` after a write, where `hv` is the sample read before it: all
-- of it, or its upper three bytes.
abbrev pub echo : DeviceType → ℕ → ℕ → ℕ → ℕ
echo type size hv ov =
    if size == 4
    then (if is_type_3 type
        then ov / 256 * 256 + (if ltb (ov / 256 % 256) 128 then 0 else 255)
        else ov)
    else ov / 256 * 256 + hv / 16777216 % 256

-- The bytes of the word `ov` in a block.
abbrev pub encode : DeviceType → ℕ → ℕ → List ℕ
encode type size ov = take size (word_bytes (swap32 (align type size ov)))

-- A write of at most four bytes that fit puts the bytes of the sample before what follows them.
pub write_sample_lem :
    (type : DeviceType) (size ov : ℕ) (s : List ℕ)
    → size ≤ 4
    → size ≤ length s
    → write_sample type size ov s ≡ some (encode type size ov, drop size s)
unfolding write_sample
write_sample_lem type size ov s h k = rw (le→leb _ _ h, le→leb _ _ k)

pub length-encode :
    (type : DeviceType) (size ov : ℕ) → size ≤ 4 → length (encode type size ov) ≡ size
length-encode type size ov h =
    omega (arith, length-take size (word_bytes (swap32 (align type size ov))))

echo_full : (a : ℕ) → a < 2 ^ 32 → swap32 (swap32 a) ≡ a
unfolding swap32
echo_full a h = omega arith

echo_shifted :
    (ov : ℕ)
    → ov < 2 ^ 32
    → swap32 (sar8 (swap32 (sar8 ov)))
      ≡ ov / 256 * 256 + (if ltb (ov / 256 % 256) 128 then 0 else 255)
unfolding swap32 sar8
echo_shifted ov h = ground arith

word-word_bytes : (w : ℕ) → w < 2 ^ 32 → word_of_bytes (word_bytes w) ≡ w
word-word_bytes w h = omega arith

swap32-lt : (w : ℕ) → swap32 w < 2 ^ 32
unfolding swap32
swap32-lt w = omega arith

-- In the lemmas below the size is a numeral, so that the copies compute.
read-write_shifted :
    (hv ov : ℕ) (s : List ℕ)
    → ov < 2 ^ 32
    → read_sample type_3 4 hv (encode type_3 4 ov ++ s) ≡ some (echo type_3 4 hv ov)
unfolding read_sample
read-write_shifted hv ov s h =
    ground (arith, word-word_bytes (swap32 (sar8 ov)), swap32-lt (sar8 ov), echo_shifted ov h)

read-write_full :
    (type : DeviceType) (hv ov : ℕ) (s : List ℕ)
    → is_type_3 type ≡ false
    → ov < 2 ^ 32
    → read_sample type 4 hv (encode type 4 ov ++ s) ≡ some (echo type 4 hv ov)
unfolding read_sample
read-write_full type hv ov s t h =
    ground (arith, word-word_bytes (swap32 ov), swap32-lt ov, echo_full ov h)

echo_packed :
    (hv ov : ℕ)
    → ov < 2 ^ 32
    → swap32 (
        swap32 ov % 256
        + 256 * (swap32 ov / 256 % 256)
        + 65536 * (swap32 ov / 65536 % 256)
        + 16777216 * (hv / 16777216 % 256))
      ≡ ov / 256 * 256 + hv / 16777216 % 256
unfolding swap32
echo_packed hv ov h = omega arith

read-write_packed :
    (type : DeviceType) (hv ov : ℕ) (s : List ℕ)
    → ov < 2 ^ 32
    → read_sample type 3 hv (encode type 3 ov ++ s) ≡ some (echo type 3 hv ov)
unfolding read_sample
read-write_packed type hv ov s h = ground (arith, echo_packed hv ov h)

-- The sizes of the tracks of the devices that there are.
abbrev pub IsSampleSize : ℕ → Type 0
IsSampleSize size = (size ≡ 3) ⊎ (size ≡ 4)

-- A sample that was written is read back as `echo` says, whatever lies behind it.
pub read_sample-encode :
    (type : DeviceType) (size hv ov : ℕ) (s : List ℕ)
    → IsSampleSize size
    → ov < 2 ^ 32
    → read_sample type size hv (encode type size ov ++ s) ≡ some (echo type size hv ov)
read_sample-encode type size hv ov s (inl e) h = rw e (read-write_packed type hv ov s h)
read_sample-encode type_3 size hv ov s (inr e) h = rw e (read-write_shifted hv ov s h)
read_sample-encode type_1 size hv ov s (inr e) h = rw e (read-write_full type_1 hv ov s refl h)
read_sample-encode type_2 size hv ov s (inr e) h = rw e (read-write_full type_2 hv ov s refl h)

-- The upper three bytes always come back.
pub echo_upper :
    (type : DeviceType) (size hv ov : ℕ) → IsSampleSize size → echo type size hv ov / 256 ≡ ov / 256
echo_upper type_1 size hv ov h = ground arith
echo_upper type_2 size hv ov h = ground arith
echo_upper type_3 size hv ov h = ground arith

pub echo-lt : (type : DeviceType) (size hv ov : ℕ) → ov < 2 ^ 32 → echo type size hv ov < 2 ^ 32
echo-lt type_1 size hv ov h = ground arith
echo-lt type_2 size hv ov h = ground arith
echo-lt type_3 size hv ov h = ground arith

-- A sample of at most four bytes can be read wherever that many bytes are.
pub read_sample_total :
    (type : DeviceType) (size hv : ℕ) (s : List ℕ)
    → size ≤ 4
    → size ≤ length s
    → (v : ℕ) × (read_sample type size hv s ≡ some v)
unfolding read_sample
read_sample_total type size hv s h k = (
  swap32 (align type size (word_of_bytes (take size s ++ drop size (word_bytes hv)))),
  ground arith,
)
