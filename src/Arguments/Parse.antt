-- ===== src/Arguments/Parse.antt =====
-- `get_ow_xfr_timeout_argument`, `get_ow_blocks_per_transfer_argument` and
-- `get_bus_address_from_str` of src/common.c.
use overwitch.Prelude.{ℕ, ltb, Bool, true, not, ◌||◌, if◌then◌else◌, List, [], ◌∷◌, length}
use overwitch.Arguments.Strtol.{Long, strtol, int_of, byte_of, below, above, is_nil}

-- What the code refuses of a number: `errno || endstr == optarg || *endstr != '\0'`.
abbrev pub is_malformed : Long → Bool
is_malformed l = l.out_of_range || (not l.converted || not (is_nil l.rest))

unfoldable pub get_ow_xfr_timeout_argument : List ℕ → ℕ
unfolding strtol
get_ow_xfr_timeout_argument optarg =
    let l = strtol optarg in
    let xfr_timeout = int_of l in
    if is_malformed l || (below xfr_timeout 0 || above xfr_timeout 25) then 10 else xfr_timeout

unfoldable pub get_ow_blocks_per_transfer_argument : List ℕ → ℕ
unfolding strtol
get_ow_blocks_per_transfer_argument optarg =
    let l = strtol optarg in
    let blocks_per_transfer = int_of l in
    if is_malformed l || (below blocks_per_transfer 6 || above blocks_per_transfer 32)
    then 24
    else blocks_per_transfer

-- Whether the result is an error, and the two numbers that were stored.
pub record BusAddress : Type 0 where
  pub is_error : Bool
  pub bus : ℕ
  pub address : ℕ

-- The second number, behind one character.
unfoldable pub get_address : ℕ → List ℕ → BusAddress
unfolding strtol
get_address bus [] = record { is_error = true; bus = bus; address = 0 }
get_address bus (c ∷ str) =
    let l = strtol str in record { is_error = not l.converted; bus = bus; address = byte_of l }

unfoldable pub get_bus_address_from_str : List ℕ → BusAddress
unfolding strtol get_address
get_bus_address_from_str input =
    let l = strtol input in
    if not l.converted || ltb (length l.rest) 2
    then record { is_error = true; bus = byte_of l; address = 0 }
    else get_address (byte_of l) l.rest
