-- ===== src/Engine/Rings.antt =====
-- The ring buffers between the two threads. They are not part of the program: `struct ow_context`
-- of src/overwitch.h brings the functions `read_space`, `write_space`, `read` and `write`, which
-- src/jclient.c fills with those of JACK. All sizes are in bytes.
pub mod Plain
use overwitch.Prelude.{ℕ, ◌+◌, ◌/◌, ◌≤◌, ◌≡◌, List, length}

pub record Rings (Float : Type 0) : Type 1 where
  pub Ring : Type 0
  pub read_space : Ring → ℕ
  pub write_space : Ring → ℕ
  -- What a read of so many bytes stores, and the ring after it.
  pub read : Ring → ℕ → List Float × Ring
  -- A read with no destination: the bytes are dropped.
  pub skip : Ring → ℕ → Ring
  pub write : Ring → List Float → ℕ → Ring
  -- What JACK documents of them. Samples are stored whole: four bytes each.
  pub length-read : (r : Ring) (n : ℕ) → n ≤ read_space r → length (read r n).0 ≡ n / 4
  pub read_space-read :
      (r : Ring) (n : ℕ) → n ≤ read_space r → read_space (read r n).1 + n ≡ read_space r
  pub read_space-skip :
      (r : Ring) (n : ℕ) → n ≤ read_space r → read_space (skip r n) + n ≡ read_space r
  pub read_space-write :
      (r : Ring) (fs : List Float) (n : ℕ)
      → n ≤ write_space r
      → read_space (write r fs n) ≡ read_space r + n
