-- ===== src/Arguments/Counts.antt =====
-- The counters of the three programs, by how often each option was given.
use overwitch.Prelude.{
  ℕ, ◌+◌, ◌≡◌, refl, ap, Bool, true, false, if◌then◌else◌, List, [], ◌∷◌, count_if, arith,
}
use overwitch.Arguments.Options.{
  Opt, use_device_number, use_device, bus_device_address, mask, transfer_blocks, transfer_timeout,
  rt_priority, rename, list_devices, help, unknown, is_help, Settings, defaults, take_play,
  take_record, take_cli,
}
use overwitch.Arguments.Mains.{parsed, parse}

abbrev pub is_number : Opt → Bool
is_number o = elim o [ use_device_number a ↦ true | _ ↦ false ]

abbrev pub is_name : Opt → Bool
is_name o = elim o [ use_device a ↦ true | _ ↦ false ]

abbrev pub is_address : Opt → Bool
is_address o = elim o [ bus_device_address a ↦ true | _ ↦ false ]

abbrev pub is_mask : Opt → Bool
is_mask o = elim o [ mask a ↦ true | _ ↦ false ]

abbrev pub is_blocks : Opt → Bool
is_blocks o = elim o [ transfer_blocks a ↦ true | _ ↦ false ]

abbrev pub is_timeout : Opt → Bool
is_timeout o = elim o [ transfer_timeout a ↦ true | _ ↦ false ]

abbrev pub is_list : Opt → Bool
is_list o = elim o [ list_devices ↦ true | _ ↦ false ]

abbrev pub is_unknown : Opt → Bool
is_unknown o = elim o [ unknown ↦ true | _ ↦ false ]

abbrev pub is_priority : Opt → Bool
is_priority o = elim o [ rt_priority a ↦ true | _ ↦ false ]

abbrev pub is_rename : Opt → Bool
is_rename o = elim o [ rename a ↦ true | _ ↦ false ]

-- A case of a switch adds one to a counter at its own option, and leaves it alone at any other.
abbrev pub Counts : (Opt → Settings → Settings) → (Settings → ℕ) → (Opt → Bool) → Type 0
Counts take get is = (o : Opt) (s : Settings) → get (take o s) ≡ get s + (if is o then 1 else 0)

-- So the loop counts the option.
pub parse-count :
    (take : Opt → Settings → Settings) (refuses : Opt → Bool) (get : Settings → ℕ) (is : Opt → Bool)
    → Counts take get is
    → (os : List Opt) (s t : Settings) → parse take refuses os s ≡ parsed t
    → get t ≡ get s + count_if is os
unfolding parse
parse-count take refuses get is c [] s t h = let e : s ≡ t = cc in omega (arith, ap get e)
parse-count take refuses get is c (o ∷ os) s t h =
    let go : parse take refuses os (take o s) ≡ parsed t = ground arith in
    omega (arith, parse-count take refuses get is c os (take o s) t go, c o s)

-- From the defaults on, where the counter is 0.
pub parse-total :
    (take : Opt → Settings → Settings) (refuses : Opt → Bool) (get : Settings → ℕ) (is : Opt → Bool)
    → Counts take get is
    → get defaults ≡ 0
    → (os : List Opt) (t : Settings) → parse take refuses os defaults ≡ parsed t
    → get t ≡ count_if is os
parse-total take refuses get is c z os t h =
    omega (arith, parse-count take refuses get is c os defaults t h, z)

-- A loop that comes to its end has seen no `-h` and no refused address, and one that sees none of
-- them comes to its end.
pub parse-clean :
    (take : Opt → Settings → Settings) (refuses : Opt → Bool) (os : List Opt) (s t : Settings)
    → parse take refuses os s ≡ parsed t
    → (count_if is_help os ≡ 0) × (count_if refuses os ≡ 0)
unfolding parse
parse-clean take refuses [] s t h = (refl, refl)
parse-clean take refuses (o ∷ os) s t h = ground (arith, parse-clean take refuses os (take o s) t)

pub clean-parse :
    (take : Opt → Settings → Settings) (refuses : Opt → Bool) (os : List Opt) (s : Settings)
    → count_if is_help os ≡ 0
    → count_if refuses os ≡ 0
    → (t : Settings) × (parse take refuses os s ≡ parsed t)
unfolding parse
clean-parse take refuses [] s h k = (s, refl)
clean-parse take refuses (o ∷ os) s h k =
    let a : is_help o ≡ false = ground arith in
    let b : refuses o ≡ false = ground arith in
    rw (a, b) (clean-parse take refuses os (take o s) (omega (arith, h)) (omega (arith, k)))

-- The counters that each program reads, after its loop.
pub record PlayCounts (os : List Opt) (t : Settings) : Type 0 where
  pub nflg : t.nflg ≡ count_if is_number os
  pub dflg : t.dflg ≡ count_if is_name os
  pub bflg : t.bflg ≡ count_if is_blocks os
  pub tflg : t.tflg ≡ count_if is_timeout os
  pub lflg : t.lflg ≡ count_if is_list os
  pub errflg : t.errflg ≡ count_if is_unknown os

pub record RecordCounts (os : List Opt) (t : Settings) : Type 0 where
  pub common : PlayCounts os t
  pub aflg : t.aflg ≡ count_if is_address os
  pub mflg : t.mflg ≡ count_if is_mask os

pub record CliCounts (os : List Opt) (t : Settings) : Type 0 where
  pub common : PlayCounts os t
  pub aflg : t.aflg ≡ count_if is_address os
  pub pflg : t.pflg ≡ count_if is_priority os
  pub rflg : t.rflg ≡ count_if is_rename os

abbrev pub bit : Bool → ℕ
bit b = if b then 1 else 0

-- The counters that the three loops share, in one step.
abbrev pub StepCounts : Opt → Settings → Settings → Type 0
StepCounts o s t =
    (t.nflg ≡ s.nflg + bit (is_number o))
    × (t.dflg ≡ s.dflg + bit (is_name o))
    × (t.bflg ≡ s.bflg + bit (is_blocks o))
    × (t.tflg ≡ s.tflg + bit (is_timeout o))
    × (t.lflg ≡ s.lflg + bit (is_list o))
    × (t.errflg ≡ s.errflg + bit (is_unknown o))

pub take_play-StepCounts : (o : Opt) (s : Settings) → StepCounts o s (take_play o s)
unfolding take_play
take_play-StepCounts help s = omega arith
take_play-StepCounts _ s = omega arith

pub take_record-StepCounts :
    (o : Opt) (s : Settings)
    → StepCounts o s (take_record o s)
      × (((take_record o s).aflg ≡ s.aflg + bit (is_address o))
          × ((take_record o s).mflg ≡ s.mflg + bit (is_mask o)))
unfolding take_record
take_record-StepCounts help s = omega arith
take_record-StepCounts _ s = omega arith

pub take_cli-StepCounts :
    (o : Opt) (s : Settings)
    → StepCounts o s (take_cli o s)
      × (((take_cli o s).aflg ≡ s.aflg + bit (is_address o))
          × ((take_cli o s).pflg ≡ s.pflg + bit (is_priority o))
          × ((take_cli o s).rflg ≡ s.rflg + bit (is_rename o)))
unfolding take_cli
take_cli-StepCounts help s = omega arith
take_cli-StepCounts _ s = omega arith

pub parse-PlayCounts :
    (take : Opt → Settings → Settings) (refuses : Opt → Bool)
    → ((o : Opt) (s : Settings) → StepCounts o s (take o s))
    → (os : List Opt) (t : Settings) → parse take refuses os defaults ≡ parsed t
    → PlayCounts os t
parse-PlayCounts take refuses c os t h = record {
  nflg = parse-total take refuses (λ s. s.nflg) is_number (λ o s. (c o s).0) refl os t h;
  dflg = parse-total take refuses (λ s. s.dflg) is_name (λ o s. (c o s).1) refl os t h;
  bflg = parse-total take refuses (λ s. s.bflg) is_blocks (λ o s. (c o s).2) refl os t h;
  tflg = parse-total take refuses (λ s. s.tflg) is_timeout (λ o s. (c o s).3) refl os t h;
  lflg = parse-total take refuses (λ s. s.lflg) is_list (λ o s. (c o s).4) refl os t h;
  errflg = parse-total take refuses (λ s. s.errflg) is_unknown (λ o s. (c o s).5) refl os t h;
}
