-- ===== src/Engine/Rings/Plain.antt =====
-- A ring that meets the interface: the bytes in it as a number, and no memory of the samples.
use overwitch.Prelude.{ℕ, ◌+◌, ◌-◌, ◌/◌, ◌≤◌, ◌≡◌, refl, arith, length-replicate, replicate}
use overwitch.Engine.Rings.{Rings}

pub record PlainRing : Type 0 where
  pub held : ℕ
  pub room : ℕ

abbrev pub take_out : PlainRing → ℕ → PlainRing
take_out r n = record { held = r.held - n; room = r.room + n }

pub take_out_held : (r : PlainRing) (n : ℕ) → n ≤ r.held → r.held - n + n ≡ r.held
take_out_held r n h = omega arith

abbrev pub plain_rings : Rings ℕ
plain_rings = record {
  Ring = PlainRing;
  read_space = λ r. r.held;
  write_space = λ r. r.room;
  read = λ r n. (replicate (n / 4) 0, take_out r n);
  skip = take_out;
  write = λ r fs n. record { held = r.held + n; room = r.room - n };
  length-read = λ r n h. length-replicate (n / 4) 0;
  read_space-read = take_out_held;
  read_space-skip = take_out_held;
  read_space-write = λ r fs n h. refl;
}
