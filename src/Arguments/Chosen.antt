-- ===== src/Arguments/Chosen.antt =====
-- When the programs run, by how often each option was given, and with which numbers.
use overwitch.Prelude.{◌+◌, ◌≤◌, ◌≡◌, Bool, true, List, count_if, arith}
use overwitch.Arguments.Options.{Opt, is_help, Settings}
use overwitch.Arguments.Mains.{
  runs, renames, is_bad_address, choose_play, choose_record, choose_cli,
}
use overwitch.Arguments.Counts.{
  is_number, is_name, is_address, is_mask, is_blocks, is_timeout, is_list, is_unknown, is_priority,
  is_rename, PlayCounts, RecordCounts, CliCounts,
}

-- When overwitch-play runs: `has_file` tells whether there is one more argument.
abbrev pub PlayRuns : Bool → List Opt → Type 0
PlayRuns has_file os =
    (has_file ≡ true)
    × (count_if is_help os ≡ 0)
    × (count_if is_unknown os ≡ 0)
    × (count_if is_list os ≡ 0)
    × (count_if is_blocks os ≤ 1)
    × (count_if is_timeout os ≤ 1)
    × (count_if is_number os + count_if is_name os ≡ 1)

abbrev pub RecordRuns : List Opt → Type 0
RecordRuns os =
    (count_if is_help os ≡ 0)
    × (count_if is_unknown os ≡ 0)
    × (count_if is_list os ≡ 0)
    × (count_if is_mask os ≤ 1)
    × (count_if is_blocks os ≤ 1)
    × (count_if is_timeout os ≤ 1)
    × (count_if is_number os + count_if is_name os + count_if is_address os ≡ 1)

abbrev pub CliGoes : List Opt → Type 0
CliGoes os =
    (count_if is_help os ≡ 0)
    × (count_if is_bad_address os ≡ 0)
    × (count_if is_unknown os ≡ 0)
    × (count_if is_list os ≡ 0)
    × (count_if is_blocks os ≤ 1)
    × (count_if is_timeout os ≤ 1)
    × (count_if is_priority os ≤ 1)
    × (count_if is_number os + count_if is_name os + count_if is_address os ≡ 1)

pub chosen_play :
    (has_file : Bool) (os : List Opt) (t s : Settings)
    → PlayCounts os t
    → count_if is_help os ≡ 0
    → choose_play has_file t ≡ runs s
    → PlayRuns has_file os
unfolding choose_play
chosen_play has_file os t s c h e = ground arith

pub play_chosen :
    (has_file : Bool) (os : List Opt) (t : Settings)
    → PlayCounts os t
    → PlayRuns has_file os
    → choose_play has_file t ≡ runs t
unfolding choose_play
play_chosen has_file os t c p = ground arith

pub chosen_record :
    (os : List Opt) (t s : Settings)
    → RecordCounts os t
    → count_if is_help os ≡ 0
    → choose_record t ≡ runs s
    → RecordRuns os
unfolding choose_record
chosen_record os t s c h e = ground arith

pub record_chosen :
    (os : List Opt) (t : Settings) → RecordCounts os t → RecordRuns os → choose_record t ≡ runs t
unfolding choose_record
record_chosen os t c p = ground arith

pub chosen_cli :
    (os : List Opt) (t s : Settings)
    → CliCounts os t
    → (count_if is_help os ≡ 0) × (count_if is_bad_address os ≡ 0)
    → ((choose_cli t ≡ runs s) → CliGoes os × (count_if is_rename os ≡ 0))
      × ((choose_cli t ≡ renames s) → CliGoes os × (count_if is_rename os ≡ 1))
unfolding choose_cli
chosen_cli os t s c h = ((λ e. ground arith), (λ e. ground arith))

pub cli_chosen :
    (os : List Opt) (t : Settings)
    → CliCounts os t
    → CliGoes os
    → ((count_if is_rename os ≡ 0) → (choose_cli t ≡ runs t))
      × ((count_if is_rename os ≡ 1) → (choose_cli t ≡ renames t))
unfolding choose_cli
cli_chosen os t c p = ((λ e. ground arith), (λ e. ground arith))
