-- ===== src/Arguments/Bounds.antt =====
-- With which numbers the programs run.
use mathlib.Core.Path.{subst}
use overwitch.Prelude.{◌≤◌, ◌≡◌, Bool, List, [], ◌∷◌, arith}
use overwitch.Arguments.Numbers.{arguments_in_range}
use overwitch.Arguments.Options.{
  Opt, transfer_blocks, transfer_timeout, Settings, defaults, take_play, take_record, take_cli,
}
use overwitch.Arguments.Runs.{main_parsed, cli_parsed}
use overwitch.Arguments.Mains.{
  Outcome, runs, parsed, is_bad_address, never, parse, parse_play, parse_record, choose_play,
  choose_record, choose_cli, main_play, main_record, main_cli,
}

pub record InRange (s : Settings) : Type 0 where
  pub timeout : s.xfr_timeout ≤ 25
  pub at_least : 6 ≤ s.blocks_per_transfer
  pub at_most : s.blocks_per_transfer ≤ 32

abbrev Keeps : (Opt → Settings → Settings) → Type 0
Keeps take = (o : Opt) (s : Settings) → InRange s → InRange (take o s)

take_play-InRange : Keeps take_play
unfolding take_play
take_play-InRange (transfer_blocks t) s h = ground (arith, arguments_in_range [] t)
take_play-InRange (transfer_timeout t) s h = ground (arith, arguments_in_range t [])
take_play-InRange _ s h = ground arith

take_record-InRange : Keeps take_record
unfolding take_record
take_record-InRange (transfer_blocks t) s h = ground (arith, arguments_in_range [] t)
take_record-InRange (transfer_timeout t) s h = ground (arith, arguments_in_range t [])
take_record-InRange _ s h = ground arith

take_cli-InRange : Keeps take_cli
unfolding take_cli
take_cli-InRange (transfer_blocks t) s h = ground (arith, arguments_in_range [] t)
take_cli-InRange (transfer_timeout t) s h = ground (arith, arguments_in_range t [])
take_cli-InRange _ s h = ground arith

parse-InRange :
    (take : Opt → Settings → Settings) (refuses : Opt → Bool)
    → Keeps take
    → (os : List Opt) (s t : Settings) → InRange s
    → parse take refuses os s ≡ parsed t
    → InRange t
unfolding parse
parse-InRange take refuses k [] s t h e = ground arith
parse-InRange take refuses k (o ∷ os) s t h e =
    parse-InRange take refuses k os (take o s) t (k o s h) (ground arith)

defaults-InRange : InRange defaults
defaults-InRange = ground arith

play_same : (has_file : Bool) (t s : Settings) → choose_play has_file t ≡ runs s → t ≡ s
unfolding choose_play
play_same has_file t s e = ground arith

record_same : (t s : Settings) → choose_record t ≡ runs s → t ≡ s
unfolding choose_record
record_same t s e = ground arith

cli_same : (t s : Settings) → choose_cli t ≡ runs s → t ≡ s
unfolding choose_cli
cli_same t s e = ground arith

-- The three programs; overwitch-play with or without a file.
pub data Tool : Type 0 where
  play : Bool → Tool
  recorder client : Tool

abbrev pub main_of : Tool → List Opt → Outcome
main_of (play has_file) os = main_play has_file os
main_of recorder os = main_record os
main_of client os = main_cli os

-- Whatever the options are, each of the three programs runs with a timeout of at most 25 and with 6
-- to 32 blocks in a transfer.
main_of-InRange :
    (tool : Tool) (os : List Opt) (s : Settings) → main_of tool os ≡ runs s → InRange s
unfolding main_play main_record parse_play parse_record
main_of-InRange (play has_file) os s e =
    let (t, p, c) =
      main_parsed 1 (parse take_play never os defaults) (choose_play has_file) (runs s)
        (λ n. λ h. cc) e in
    subst InRange (play_same has_file t s c)
      (parse-InRange take_play never take_play-InRange os defaults t defaults-InRange p)
main_of-InRange recorder os s e =
    let (t, p, c) =
      main_parsed 1 (parse take_record never os defaults) choose_record (runs s) (λ n. λ h. cc) e in
    subst InRange (record_same t s c)
      (parse-InRange take_record never take_record-InRange os defaults t defaults-InRange p)
main_of-InRange client os s e =
    let (t, p, c) = cli_parsed os (runs s) (λ n. λ h. cc) e in
    subst InRange (cli_same t s c)
      (parse-InRange take_cli is_bad_address take_cli-InRange os defaults t defaults-InRange p)
