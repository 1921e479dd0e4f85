-- ===== src/Engine/Publish.antt =====
-- What `set_usb_input_data_blks` of src/engine.c does with the device-to-host ring, the latencies
-- and the DLL.
use overwitch.Prelude.{
  ℕ, ◌+◌, ◌/◌, ◌<◌, ◌≡◌, refl, some, Runs, Runs-some, Runs-if, Runs-bind, arith, leb, ltb, max,
  Bool-cases, inl, inr, if◌then◌else◌, List, length, ◌*◌, leb→le,
}
use overwitch.Numeric.{Floats}
use overwitch.Engine.Rings.{Rings}
use overwitch.Engine.Status.{level, run}
use overwitch.Engine.State.{Engine}
use overwitch.Engine.Input.{div?, raise, publish_input, set_usb_input_data_blks}
use overwitch.Engine.Valid.Defs.{IsValid}
use overwitch.Engine.Blocks.{read_blocks}
use overwitch.Engine.Valid.Moves.{
  div?-Runs, read_usb_input_blocks-IsValid, read_usb_input_blocks-decoded,
}

raise-eq-max : (m x : ℕ) → raise m x ≡ max m x
raise-eq-max m x = ground arith

module _ (F : Floats) (R : Rings F.Float) where
  open F use {Float}
  open R use {Ring, read_space, write_space, write, read_space-write}

  -- What the blocks of a transfer hold goes into the ring whole or not at all, and the latency
  -- follows the ring.
  pub record Published (hv : ℕ) (e e' : Engine Float Ring) : Type 0 where
    pub samples : List Float
    pub decoded :
        read_blocks F e.desc.type e.desc.output_tracks hv e.xfr_audio_in_data ≡ some samples
    pub ring : e'.o2h_audio ≡ (
        if leb e.o2h_transfer_size (write_space e.o2h_audio)
        then write e.o2h_audio samples e.o2h_transfer_size
        else e.o2h_audio)
    pub whole : length samples * 4 ≡ e.o2h_transfer_size
    pub space : read_space e'.o2h_audio ≡ (
        if leb e.o2h_transfer_size (write_space e.o2h_audio)
        then read_space e.o2h_audio + e.o2h_transfer_size
        else read_space e.o2h_audio)
    pub latency : e'.latency_o2h ≡ read_space e'.o2h_audio / e.o2h_frame_size
    pub highest : e'.latency_o2h_max ≡ max e.latency_o2h_max e'.latency_o2h

  published_space :
      (e : Engine Float Ring) (fs : List Float)
      → read_space (
          if leb e.o2h_transfer_size (write_space e.o2h_audio)
          then write e.o2h_audio fs e.o2h_transfer_size
          else e.o2h_audio)
        ≡ (if leb e.o2h_transfer_size (write_space e.o2h_audio)
            then read_space e.o2h_audio + e.o2h_transfer_size
            else read_space e.o2h_audio)
  published_space e fs = elim (Bool-cases (leb e.o2h_transfer_size (write_space e.o2h_audio))) [
    | inl p ↦ rw p (read_space-write e.o2h_audio fs e.o2h_transfer_size (leb→le _ _ p))
    | inr p ↦ rw p
  ]

  -- A transfer whose samples are in the buffer.
  publish_input-Published :
      (hv : ℕ) (e : Engine Float Ring) (fs : List Float)
      → read_blocks F e.desc.type e.desc.output_tracks hv e.xfr_audio_in_data ≡ some fs
      → IsValid F (record e { o2h_transfer_buf = fs })
      → Runs (publish_input F R (record e { o2h_transfer_buf = fs })) (Published hv e)
  unfolding publish_input
  publish_input-Published hv e fs r v =
      Runs-bind _ (div? _ e.o2h_frame_size) _ _ (div?-Runs _ _ v.o2h_some) (λ latency q.
        Runs-some _ _ (record {
          samples = fs;
          decoded = r;
          ring = refl;
          whole = omega (arith, v.o2h_buf, v.o2h_size);
          space = published_space e fs;
          latency = q;
          highest = raise-eq-max e.latency_o2h_max latency;
        }))

  module _ {D : Type 0} (update : D → ℕ → ℕ → D) (time hv : ℕ) (dll : D) (e : Engine Float Ring)
      (v : IsValid F e) where
    -- From a valid engine that does not run, a callback of the device-to-host side returns; the
    -- DLL is updated if there is one, and the ring and the latencies stay as they are.
    input_waits :
        level e.status < level run
        → Runs (set_usb_input_data_blks F R update time hv dll e) (λ r.
          (r.0 ≡ (if e.has_dll then update dll e.frames_per_transfer time else dll))
          × (r.1.o2h_audio ≡ e.o2h_audio)
          × (r.1.latency_o2h ≡ e.latency_o2h)
          × (r.1.latency_o2h_max ≡ e.latency_o2h_max))
    unfolding set_usb_input_data_blks
    input_waits h =
        let (fs, r, v') = read_usb_input_blocks-IsValid F R hv e v in
        let e' = record e { o2h_transfer_buf = fs } in
        rw r (
          Runs-bind _ (if ltb (level e.status) (level run) then some e' else publish_input F R e') _
            (λ e''. e'' ≡ e')
            (Runs-if _ (ltb (level e.status) (level run)) _ _ (λ _. Runs-some _ e' refl)
              (λ bad. absurd (ground arith)))
            (λ e'' q. Runs-some _ _ (refl, rw q, rw q, rw q)))

    -- From a valid engine that runs, a callback of the device-to-host side returns; the DLL is
    -- updated if there is one; the samples that the blocks of the device encode, which are as many
    -- as a transfer has, are what is written to the ring if they fit, and nothing is if they do
    -- not; the latency is what the ring then holds in frames of a USB block, and its maximum
    -- follows.
    pub input_publishes :
        e.status ≡ run
        → Runs (set_usb_input_data_blks F R update time hv dll e) (λ r.
          (r.0 ≡ (if e.has_dll then update dll e.frames_per_transfer time else dll))
          × Published hv e r.1)
    unfolding set_usb_input_data_blks
    input_publishes h =
        let (fs, d, r, v') = read_usb_input_blocks-decoded F R hv e v in
        let e' = record e { o2h_transfer_buf = fs } in
        rw r (
          Runs-bind _ (if ltb (level e.status) (level run) then some e' else publish_input F R e') _
            (Published hv e)
            (Runs-if _ (ltb (level e.status) (level run)) _ _ (λ bad. absurd (ground arith))
              (λ _. publish_input-Published hv e fs d v'))
            (λ e'' p. Runs-some _ _ (refl, p)))
