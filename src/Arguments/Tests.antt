-- ===== src/Arguments/Tests.antt =====
-- Texts and options, and the theorems at them.
use Prim.Native.Char.{code}
use Prim.Native.String.{String}
use overwitch.Prelude.{ℕ, ◌≡◌, ◌↔◌, refl, true, some, List, [], ◌∷◌, count_if, arith}
use overwitch.Arguments.Strtol.{convert, scan_digits}
use overwitch.Arguments.Parse.{
  get_ow_xfr_timeout_argument, get_ow_blocks_per_transfer_argument, get_bus_address_from_str,
}
use overwitch.Arguments.Numbers.{arguments-digits}
use overwitch.Arguments.Options.{
  Opt, use_device, bus_device_address, transfer_blocks, Settings, defaults, take_play, take_record,
}
use overwitch.Arguments.Mains.{
  runs, renames, exits, main_play, main_record, main_cli, choose_play, choose_record, parse_play,
  parse_record,
}
use overwitch.Arguments.Chosen.{PlayRuns, RecordRuns, CliGoes}
use overwitch.Arguments.Counts.{is_rename}
use overwitch.Arguments.Runs.{programs_run}
use overwitch.Arguments.Bounds.{recorder, main_of}

-- The code points of a text.
abbrev codes : String → List ℕ
codes String.[] = []
codes (String.◌∷◌ c s) = code c ∷ codes s

-- 2 ^ 32 + 6 passes for 6.
too_many : get_ow_blocks_per_transfer_argument (codes "4294967302") ≡ 6
unfolding get_ow_blocks_per_transfer_argument convert scan_digits
too_many = refl

negative_timeout : get_ow_xfr_timeout_argument (codes "-1") ≡ 10
unfolding get_ow_xfr_timeout_argument convert scan_digits
negative_timeout = refl

missing_address : (get_bus_address_from_str (codes "3,")).is_error ≡ true
unfolding get_bus_address_from_str convert scan_digits
missing_address = refl

arguments-digits_example :
    (get_ow_xfr_timeout_argument (b'1' ∷ b'2' ∷ []) ≡ 12)
    × (get_ow_blocks_per_transfer_argument (b'1' ∷ b'2' ∷ []) ≡ 12)
arguments-digits_example = arguments-digits b'1' (b'2' ∷ []) (omega arith) (omega arith)

abbrev by_address : List Opt
by_address = bus_device_address (codes "1,2") ∷ []

abbrev by_name : List Opt
by_name = use_device (codes "Digitakt") ∷ transfer_blocks (codes "8") ∷ []

play_ignores_address : main_play true by_address ≡ exits 1
unfolding main_play parse_play take_play choose_play
play_ignores_address = refl

abbrev eight_blocks : Settings
eight_blocks = record defaults {
  device_name = some (codes "Digitakt");
  dflg = 1;
  blocks_per_transfer = 8;
  bflg = 1;
}

recorded_by_name : main_of recorder by_name ≡ runs eight_blocks
unfolding main_record parse_record take_record choose_record get_ow_blocks_per_transfer_argument
    convert scan_digits
recorded_by_name = refl

programs_run_example :
    (((s : Settings) × (main_play true by_name ≡ runs s)) ↔ PlayRuns true by_name)
    × ((((s : Settings) × (main_record by_name ≡ runs s)) ↔ RecordRuns by_name)
        × ((((s : Settings) × (main_cli by_name ≡ runs s))
              ↔ (CliGoes by_name × (count_if is_rename by_name ≡ 0)))
            × (((s : Settings) × (main_cli by_name ≡ renames s))
                ↔ (CliGoes by_name × (count_if is_rename by_name ≡ 1)))))
programs_run_example = programs_run true by_name
