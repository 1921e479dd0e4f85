-- ===== src/Arguments/Mains.antt =====
-- `main` of src/main-play.c, src/main-record.c and src/main-cli.c, from the options to what runs.
use overwitch.Prelude.{ℕ, ◌+◌, ltb, ◌==◌, Bool, false, ◌||◌, if◌then◌else◌, List, [], ◌∷◌}
use overwitch.Arguments.Parse.{get_bus_address_from_str}
use overwitch.Arguments.Options.{
  Opt, bus_device_address, is_help, Settings, defaults, take_play, take_record, take_cli,
}

-- What a program does: it exits with a code, lists the devices, or goes on with the settings.
pub data Outcome : Type 0 where
  exits : ℕ → Outcome
  lists : Outcome
  runs : Settings → Outcome
  renames : Settings → Outcome

-- How the loop over the options ends: after the last, at `-h`, or at an address that is refused.
pub data Parsed : Type 0 where
  parsed : Settings → Parsed
  helped refused : Parsed

-- The loop, with the cases of the switch, and the test that ends it with an error.
unfoldable pub parse : (Opt → Settings → Settings) → (Opt → Bool) → List Opt → Settings → Parsed
parse take refuses [] s = parsed s
parse take refuses (o ∷ os) s =
    let rest = parse take refuses os (take o s) in
    if is_help o then helped else if refuses o then refused else rest

-- overwitch-cli ends at an address that it cannot read; the other two go on.
abbrev pub is_bad_address : Opt → Bool
is_bad_address o = elim o [
  | bus_device_address optarg ↦ (get_bus_address_from_str optarg).is_error
  | _ ↦ false
]

abbrev pub never : Opt → Bool
never o = false

unfoldable pub parse_play : List Opt → Settings → Parsed
unfolding parse
parse_play = parse take_play never

unfoldable pub parse_record : List Opt → Settings → Parsed
unfolding parse
parse_record = parse take_record never

unfoldable pub parse_cli : List Opt → Settings → Parsed
unfolding parse
parse_cli = parse take_cli is_bad_address

-- What overwitch-play does after the loop, with or without one more argument, the file.
unfoldable pub choose_play : Bool → Settings → Outcome
choose_play has_file s =
    let errflg = if has_file || ltb 0 s.lflg then s.errflg else s.errflg + 1 in
    if ltb 0 errflg
    then exits 1
    else if ltb 0 s.lflg
    then lists
    else if ltb 1 s.bflg
    then exits 1
    else if ltb 1 s.tflg
    then exits 1
    else if s.nflg + s.dflg == 1
    then runs s
    else exits 1

unfoldable pub choose_record : Settings → Outcome
choose_record s =
    if ltb 0 s.errflg
    then exits 1
    else if ltb 0 s.lflg
    then lists
    else if ltb 1 s.mflg
    then exits 1
    else if ltb 1 s.bflg
    then exits 1
    else if ltb 1 s.tflg
    then exits 1
    else if s.nflg + s.dflg + s.aflg == 1
    then runs s
    else exits 1

unfoldable pub choose_cli : Settings → Outcome
choose_cli s =
    if ltb 0 s.errflg
    then exits 1
    else if ltb 0 s.lflg
    then lists
    else if ltb 1 s.bflg
    then exits 1
    else if ltb 1 s.pflg
    then exits 1
    else if ltb 1 s.tflg
    then exits 1
    else if ltb 1 s.rflg
    then exits 1
    else if s.nflg + s.dflg + s.aflg == 1
    then if ltb 0 s.rflg then renames s else runs s
    else exits 1

unfoldable pub main_play : Bool → List Opt → Outcome
main_play has_file os = elim (parse_play os defaults) [
  | parsed s ↦ choose_play has_file s
  | helped ↦ exits 0
  | refused ↦ exits 1
]

unfoldable pub main_record : List Opt → Outcome
main_record os = elim (parse_record os defaults) [
  | parsed s ↦ choose_record s
  | helped ↦ exits 0
  | refused ↦ exits 1
]

-- The error of an address is `-EINVAL`, of which the shell sees the last byte, 256 - 22.
unfoldable pub main_cli : List Opt → Outcome
main_cli os = elim (parse_cli os defaults) [
  | parsed s ↦ choose_cli s
  | helped ↦ exits 0
  | refused ↦ exits 234
]
