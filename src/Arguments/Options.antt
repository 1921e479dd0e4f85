-- ===== src/Arguments/Options.antt =====
-- The options of overwitch-cli, overwitch-record and overwitch-play, as `getopt_long` of C gives
-- them one after another, and the variables that `main` of each program keeps for them.
use overwitch.Prelude.{
  ℕ, ◌+◌, ◌-◌, ◌^◌, Bool, true, false, ◌||◌, if◌then◌else◌, Option, none, some, List,
}
use overwitch.Arguments.Strtol.{strtol, int_of, below, above, is_negative}
use overwitch.Arguments.Parse.{
  get_ow_xfr_timeout_argument, get_ow_blocks_per_transfer_argument, get_bus_address_from_str,
  is_malformed,
}

-- An option with its argument; `unknown` is the character `?`.
pub data Opt : Type 0 where
  use_device_number use_device bus_device_address mask buffer_size : List ℕ → Opt
  transfer_blocks transfer_timeout resampling_quality rt_priority rename : List ℕ → Opt
  list_devices verbose help unknown : Opt

abbrev pub is_help : Opt → Bool
is_help o = elim o [ help ↦ true | _ ↦ false ]

-- The variables of the three programs. An `int` is its pattern of 32 bits, a `size_t` has 64 bits.
pub record Settings : Type 0 where
  pub device_num : ℕ
  pub device_name : Option (List ℕ)
  pub bus : ℕ
  pub address : ℕ
  pub track_mask : Option (List ℕ)
  pub track_buf_size_kb : ℕ
  pub blocks_per_transfer : ℕ
  pub xfr_timeout : ℕ
  pub quality : ℕ
  pub priority : ℕ
  pub name : Option (List ℕ)
  pub nflg : ℕ
  pub dflg : ℕ
  pub aflg : ℕ
  pub mflg : ℕ
  pub sflg : ℕ
  pub bflg : ℕ
  pub tflg : ℕ
  pub pflg : ℕ
  pub rflg : ℕ
  pub lflg : ℕ
  pub vflg : ℕ
  pub errflg : ℕ

-- `-1` as an `int`
abbrev pub minus_one : ℕ
minus_one = 2 ^ 32 - 1

abbrev pub defaults : Settings
defaults = record {
  device_num = minus_one;
  device_name = none;
  bus = 0;
  address = 0;
  track_mask = none;
  track_buf_size_kb = 256;
  blocks_per_transfer = 24;
  xfr_timeout = 10;
  quality = 2;
  priority = minus_one;
  name = none;
  nflg = 0;
  dflg = 0;
  aflg = 0;
  mflg = 0;
  sflg = 0;
  bflg = 0;
  tflg = 0;
  pflg = 0;
  rflg = 0;
  lflg = 0;
  vflg = 0;
  errflg = 0;
}

-- `(size_t) atoi (optarg)`
unfoldable pub size_of_text : List ℕ → ℕ
size_of_text optarg =
    let w = int_of (strtol optarg) in if is_negative w then w + (2 ^ 64 - 2 ^ 32) else w

unfoldable pub get_quality : List ℕ → ℕ
get_quality optarg =
    let l = strtol optarg in
    let quality = int_of l in
    if is_malformed l || (above quality 4 || below quality 0) then 2 else quality

unfoldable pub get_priority : List ℕ → ℕ
get_priority optarg =
    let l = strtol optarg in
    let priority = int_of l in
    if is_malformed l || (below priority 0 || above priority 99) then minus_one else priority

-- The cases that the three loops share.
unfoldable pub take_common : Opt → Settings → Settings
take_common (use_device_number optarg) s = record s {
  device_num = int_of (strtol optarg);
  nflg = s.nflg + 1;
}
take_common (use_device optarg) s = record s { device_name = some optarg; dflg = s.dflg + 1 }
take_common (transfer_blocks optarg) s = record s {
  blocks_per_transfer = get_ow_blocks_per_transfer_argument optarg;
  bflg = s.bflg + 1;
}
take_common (transfer_timeout optarg) s = record s {
  xfr_timeout = get_ow_xfr_timeout_argument optarg;
  tflg = s.tflg + 1;
}
take_common list_devices s = record s { lflg = s.lflg + 1 }
take_common verbose s = record s { vflg = s.vflg + 1 }
take_common unknown s = record s { errflg = s.errflg + 1 }
take_common _ s = s

-- The bus and the address, whether or not they could be read.
unfoldable pub take_address : List ℕ → Settings → Settings
take_address optarg s =
    let a = get_bus_address_from_str optarg in
    record s { bus = a.bus; address = a.address; aflg = s.aflg + 1 }

-- A case of the loop in overwitch-play.
unfoldable pub take_play : Opt → Settings → Settings
unfolding take_common take_address
take_play (bus_device_address optarg) s = take_address optarg s
take_play o s = take_common o s

-- A case of the loop in overwitch-record.
unfoldable pub take_record : Opt → Settings → Settings
unfolding take_common take_address
take_record (bus_device_address optarg) s = take_address optarg s
take_record (mask optarg) s = record s { track_mask = some optarg; mflg = s.mflg + 1 }
take_record (buffer_size optarg) s = record s {
  track_buf_size_kb = size_of_text optarg;
  sflg = s.sflg + 1;
}
take_record o s = take_common o s

-- A case of the loop in overwitch-cli, if it goes on.
unfoldable pub take_cli : Opt → Settings → Settings
unfolding take_common take_address
take_cli (bus_device_address optarg) s = take_address optarg s
take_cli (resampling_quality optarg) s = record s { quality = get_quality optarg }
take_cli (rt_priority optarg) s = record s { priority = get_priority optarg; pflg = s.pflg + 1 }
take_cli (rename optarg) s = record s { name = some optarg; rflg = s.rflg + 1 }
take_cli o s = take_common o s
