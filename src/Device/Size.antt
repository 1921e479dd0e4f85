-- ===== src/Device/Size.antt =====
-- The frame size of a list of tracks, `ow_get_frame_size_from_desc_tracks` of src/overwitch.c.
use overwitch.Prelude.{ℕ, ◌+◌, ◌≡◌, refl, List, [], ◌∷◌, ◌++◌, arith}
use overwitch.Device.{Track, frame_size_from, get_frame_size_from_desc_tracks}

frame_size_from-eq-add :
    (n : ℕ) (tracks : List Track) → frame_size_from n tracks ≡ n + frame_size_from 0 tracks
unfolding frame_size_from
frame_size_from-eq-add n [] = omega arith
frame_size_from-eq-add n (t ∷ ts) =
    omega (arith, frame_size_from-eq-add (n + t.size) ts, frame_size_from-eq-add (0 + t.size) ts)

pub frame_size-cons :
    (t : Track) (ts : List Track)
    → get_frame_size_from_desc_tracks (t ∷ ts) ≡ t.size + get_frame_size_from_desc_tracks ts
unfolding get_frame_size_from_desc_tracks frame_size_from
frame_size-cons t ts = omega (arith, frame_size_from-eq-add (0 + t.size) ts)

pub frame_size-nil : get_frame_size_from_desc_tracks [] ≡ 0
unfolding get_frame_size_from_desc_tracks frame_size_from
frame_size-nil = refl

-- The sizes of two lists of tracks add up.
pub frame_size-append :
    (xs ys : List Track)
    → get_frame_size_from_desc_tracks (xs ++ ys)
      ≡ get_frame_size_from_desc_tracks xs + get_frame_size_from_desc_tracks ys
frame_size-append [] ys = omega (arith, frame_size-nil)
frame_size-append (x ∷ xs) ys =
    omega (arith, frame_size-cons x (xs ++ ys), frame_size-cons x xs, frame_size-append xs ys)
