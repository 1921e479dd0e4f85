-- ===== src/Jclient/Tests.antt =====
-- The copies of two ports and three frames, a cycle of a client with one port each way, and the
-- theorems there.
use mathlib.Core.Path.{subst}
use overwitch.Prelude.{
  ◌≤◌, sym, false, set_elem, replicate, arith, ℕ, ◌≡◌, refl, some, List, [], ◌∷◌, Runs,
}
use overwitch.Numeric.Samples.{plain_floats, plain_doubles}
use overwitch.Engine.Rings.Plain.{PlainRing, plain_rings}
use overwitch.Resampler.State.{Resampler, report_state}
use overwitch.Resampler.Ratios.{Cycle, compute_ratios}
use overwitch.Resampler.Audio.{wanted}
use overwitch.Resampler.Conversions.{Bounded}
use overwitch.Resampler.Tests.{plain_converter, running, running-HasRoom}
use overwitch.Dll.{host_update, host_update_error, host_load_dll_overbridge}
use overwitch.Jclient.Process.{Client, process_cb}
use overwitch.Jclient.Cycle.{IsProcessed, process_cb-IsProcessed}
use overwitch.Jclient.Copies.{
  copy_o2j_audio, copy_j2o_audio, HasFrames, copy_j2o_audio-copy_o2j_audio,
}

abbrev ports : List (List ℕ)
ports = (0 ∷ 0 ∷ 0 ∷ []) ∷ (0 ∷ 0 ∷ 0 ∷ []) ∷ []

abbrev samples : List ℕ
samples = 1 ∷ 2 ∷ 3 ∷ 4 ∷ 5 ∷ 6 ∷ []

split_ports : copy_o2j_audio 3 0 ports samples ≡ some ((1 ∷ 3 ∷ 5 ∷ []) ∷ (2 ∷ 4 ∷ 6 ∷ []) ∷ [])
unfolding copy_o2j_audio set_elem
split_ports = refl

copy_j2o_audio-copy_o2j_audio_example :
    Runs
      (copy_o2j_audio 3 0 ports samples)
      (λ bs'. HasFrames 3 bs' × (copy_j2o_audio 3 0 bs' ≡ some samples))
copy_j2o_audio-copy_o2j_audio_example =
    copy_j2o_audio-copy_o2j_audio 3 ports samples (refl, (refl, tt)) refl

abbrev client : Client plain_doubles plain_floats plain_rings plain_converter
client = record { resampler = running 0; o2h_state = 0; h2o_state = 0; h2o_acc = 0; xrun = false }

abbrev port : List (List ℕ)
port = replicate 8 0 ∷ []

some-injective : {A : Type 0} {a b : A} → some a ≡ some b → a ≡ b
some-injective h = cc

client_wants :
    (now : ℕ) (cy : Cycle (Resampler plain_doubles ℕ PlainRing))
    → some 5 ≡ some now
    → compute_ratios plain_doubles plain_floats plain_rings client.resampler now false ≡ some cy
    → (wanted plain_doubles plain_floats plain_rings cy.resampler 0).0 ≤ 64
unfolding compute_ratios wanted host_update host_update_error host_load_dll_overbridge report_state
client_wants now cy t e =
    let at : compute_ratios plain_doubles plain_floats plain_rings client.resampler 5 false
        ≡ some cy =
      subst
        (λ n.
          compute_ratios plain_doubles plain_floats plain_rings client.resampler n false ≡ some cy)
        (sym (some-injective t)) e in
    subst (λ c. (wanted plain_doubles plain_floats plain_rings c.resampler 0).0 ≤ 64)
      (some-injective at) (omega arith)

process_cb-IsProcessed_example :
    Runs
      (process_cb plain_doubles plain_floats plain_rings plain_converter 8
        (some 5)
        client
        port
        port)
      (IsProcessed plain_doubles plain_floats plain_rings plain_converter 1 1 8)
unfolding Bounded
process_cb-IsProcessed_example =
    process_cb-IsProcessed plain_doubles plain_floats plain_rings plain_converter 1 1 8 client port
      port (running-HasRoom 0) refl (omega arith) (refl, tt) refl (refl, tt) refl (omega arith)
      (λ ratio buf frames. omega arith) (λ ratio n h buf frames. omega arith) (some 5) client_wants
