-- ===== src/Engine/Tests.antt =====
-- Runs of the engine at small inputs, and the theorems at them.
pub mod Callbacks
mod Stops
use overwitch.Prelude.{
  ℕ, ◌/◌, ◌≡◌, refl, inl, inr, some, List, [], ◌∷◌, arith, length, map, replicate,
}
use overwitch.Numeric.Samples.{plain_floats}
use overwitch.Device.{Track, type_2, type_3, get_frame_size_from_desc_tracks, frame_size_from}
use overwitch.Engine.Blocks.{
  UsbBlk, dequantize, quantize, read_blocks, write_blocks, read_tracks, write_tracks,
}
use overwitch.Engine.Sample.{read_sample, write_sample}
use overwitch.Prelude.Words.{swap16, swap32, sar8}
use overwitch.Engine.Blocks.Written.{encode_blocks, write_blocks_lem}
use overwitch.Engine.Blocks.Readable.{read_blocks_total}
use overwitch.Engine.Blocks.RoundTrip.{loopback, loopback_upper, loopback_exact}

abbrev full : Track
full = record { name = "T1"; size = 4 }

abbrev packed : Track
packed = record { name = "T2"; size = 3 }

abbrev blank : ℕ → UsbBlk
blank n = record { header = 0xff07; frames = 0; padding = replicate 28 0; samples = replicate n 0 }

abbrev seven : List ℕ
seven = 1 ∷ 0xffff_fff0 ∷ 0x1234_5678 ∷ 4 ∷ 5 ∷ 6 ∷ 0x8000_0000 ∷ []

loopback-seven : loopback plain_floats type_2 (full ∷ []) 0 0 seven (blank 28 ∷ []) ≡ some seven
unfolding read_blocks write_blocks read_tracks write_tracks read_sample write_sample swap32 swap16
    sar8
loopback-seven = refl

loopback_exact_example :
    loopback plain_floats type_2 (full ∷ []) 0 0 seven (blank 28 ∷ []) ≡ some seven
unfolding get_frame_size_from_desc_tracks frame_size_from
loopback_exact_example =
    loopback_exact plain_floats type_2 (full ∷ []) 0 0 seven (blank 28 ∷ []) (inr refl, tt)
      (refl, tt) refl (omega arith) refl (refl, tt)

-- The byte that a track of three bytes lacks comes from the sample before it.
loopback-packed :
    loopback plain_floats type_3 (packed ∷ []) 0x9900_0000 0 seven (blank 21 ∷ [])
    ≡ some (0x99 ∷ 0xffff_ff00 ∷ 0x1234_56ff ∷ 0x12 ∷ 0 ∷ 0 ∷ 0x8000_0000 ∷ [])
unfolding read_blocks write_blocks read_tracks write_tracks read_sample write_sample swap32 swap16
    sar8
loopback-packed = refl

loopback_upper_example :
    (vs : List ℕ) × (loopback plain_floats type_3 (packed ∷ []) 0x9900_0000 0 seven (blank 21 ∷ [])
      ≡ some (map (dequantize plain_floats) vs))
    × (map (λ v. v / 256) vs ≡ map (λ f. quantize plain_floats f / 256) seven)
unfolding get_frame_size_from_desc_tracks frame_size_from
loopback_upper_example =
    loopback_upper plain_floats type_3 (packed ∷ []) 0x9900_0000 0 seven (blank 21 ∷ [])
      (inl refl, tt) (refl, tt) refl (omega arith)

write_blocks_lem_example :
    write_blocks plain_floats type_2 (full ∷ []) 65_530 seven (blank 28 ∷ [])
    ≡ some (1, encode_blocks plain_floats type_2 (full ∷ []) 65_530 seven (blank 28 ∷ []))
unfolding get_frame_size_from_desc_tracks frame_size_from
write_blocks_lem_example =
    write_blocks_lem plain_floats type_2 (full ∷ []) 65_530 seven (blank 28 ∷ []) (inr refl, tt)
      (refl, tt) (omega arith) (omega arith)
