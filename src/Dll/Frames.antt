-- ===== src/Dll/Frames.antt =====
-- The frame counts of `ow_dll_overbridge_update` in src/dll.c, which are `uint32_t`.
use overwitch.Prelude.{ℕ, ◌+◌, ◌*◌, ◌^◌, ◌<◌, ◌≡◌, false, List, [], ◌∷◌, arith, length}
use overwitch.Prelude.Words.{u32}
use overwitch.Numeric.{Doubles}
use overwitch.Dll.{Dll, diff32, overbridge_update, host_load_dll_overbridge}

module _ (N : Doubles) where
  -- With fewer than 2 ^ 32 frames in a transfer and a count of 32 bits: after an update the two
  -- instants that the host side takes over are as many frames apart as a transfer has, also where
  -- the count wraps, and the loop has booted.
  pub instants_apart :
      (dll : Dll N) (frames t : ℕ)
      → frames < 2 ^ 32
      → dll.dll_overbridge.i1.frames < 2 ^ 32
      → let d = host_load_dll_overbridge N (overbridge_update N dll frames t) in
        (diff32 N d.i1.frames d.i0.frames ≡ frames) × (d.dll_overbridge.boot ≡ false)
  unfolding overbridge_update host_load_dll_overbridge
  instants_apart dll frames t h k = ground arith

  -- The updates at a list of times.
  abbrev pub updates : Dll N → ℕ → List ℕ → Dll N
  updates dll frames [] = dll
  updates dll frames (t ∷ ts) = updates (overbridge_update N dll frames t) frames ts

  update_count :
      (dll : Dll N) (frames t : ℕ)
      → dll.dll_overbridge.boot ≡ false
      → let ob = (overbridge_update N dll frames t).dll_overbridge in
        (ob.i1.frames ≡ u32 (dll.dll_overbridge.i1.frames + frames)) × (ob.boot ≡ false)
  unfolding overbridge_update
  update_count dll frames t h = ground arith

  -- Once the loop has booted, and with a count of 32 bits, the count after any number of updates
  -- is that many transfers more, modulo 2 ^ 32.
  updates_count :
      (dll : Dll N) (frames : ℕ) (ts : List ℕ)
      → dll.dll_overbridge.boot ≡ false
      → dll.dll_overbridge.i1.frames < 2 ^ 32
      → (updates dll frames ts).dll_overbridge.i1.frames
        ≡ u32 (dll.dll_overbridge.i1.frames + length ts * frames)
  updates_count dll frames [] h k = omega arith
  updates_count dll frames (t ∷ ts) h k =
      let (count, booted) = update_count dll frames t h in
      omega (
        arith,
        count,
        updates_count (overbridge_update N dll frames t) frames ts booted (omega (arith, count)),
      )
