-- ===== src/Arguments/Numbers.antt =====
-- What the parsers of numbers in src/common.c accept.
use mathlib.Core.List.{foldl}
use overwitch.Prelude.{
  ℕ, ◌+◌, ◌-◌, ◌*◌, ◌%◌, ◌^◌, ◌≤◌, ◌<◌, ◌≡◌, refl, sym, ap, ◌∙◌, ltb, leb, ◌==◌, Bool, true, false,
  ◌&&◌, ◌||◌, if◌then◌else◌, List, [], ◌∷◌, ◌++◌, append-nil, All, arith,
}
use overwitch.Arguments.Strtol.{
  Long, strtol, signed, skip_space, convert, scan_digits, is_digit, is_space, starts_digit, int_of,
  below, above,
}
use overwitch.Arguments.Parse.{
  get_ow_xfr_timeout_argument, get_ow_blocks_per_transfer_argument, get_bus_address_from_str,
  get_address, is_malformed,
}

in_range :
    (w k hi d : ℕ) (b : Bool)
    → k ≤ d
    → d ≤ hi
    → (k ≤ (if b || (below w k || above w hi) then d else w))
      × ((if b || (below w k || above w hi) then d else w) ≤ hi)
in_range w k hi d b h g = ground arith

-- Whatever the texts are, the timeout is at most 25, and the blocks are from 6 to 32.
pub arguments_in_range :
    (s t : List ℕ)
    → (get_ow_xfr_timeout_argument s ≤ 25)
      × ((6 ≤ get_ow_blocks_per_transfer_argument t) × (get_ow_blocks_per_transfer_argument t ≤ 32))
unfolding get_ow_xfr_timeout_argument get_ow_blocks_per_transfer_argument
arguments_in_range s t = (
  (in_range (int_of (strtol s)) 0 25 10 (is_malformed (strtol s)) (omega arith) (omega arith)).1,
  in_range (int_of (strtol t)) 6 32 24 (is_malformed (strtol t)) (omega arith) (omega arith),
)

abbrev pub IsDigit : ℕ → Type 0
IsDigit c = (b'0' ≤ c) × (c ≤ b'9')

-- The number that digits spell behind `n`.
abbrev pub value : ℕ → List ℕ → ℕ
value = foldl (λ n c. n * 10 + (c - b'0'))

scan_digits-digits :
    (ds rest : List ℕ) (n : ℕ)
    → All IsDigit ds
    → starts_digit rest ≡ false
    → scan_digits n (ds ++ rest) ≡ (value n ds, rest)
unfolding scan_digits
scan_digits-digits [] [] n h e = refl
scan_digits-digits [] (c ∷ s) n h e = rw e refl
scan_digits-digits (d ∷ ds) rest n h e =
    let yes_digit : is_digit d ≡ true = ground arith in
    rw yes_digit (scan_digits-digits ds rest (n * 10 + (d - b'0')) h.1 e)

-- What `strtol` gives for digits.
abbrev pub plain_long : ℕ → List ℕ → Long
plain_long n rest = record {
  negative = false;
  magnitude = if ltb (2 ^ 63 - 1) n then 2 ^ 63 - 1 else n;
  out_of_range = ltb (2 ^ 63 - 1) n;
  converted = true;
  rest = rest;
}

strtol-digits :
    (d : ℕ) (ds rest : List ℕ)
    → IsDigit d
    → All IsDigit ds
    → starts_digit rest ≡ false
    → strtol ((d ∷ ds) ++ rest) ≡ plain_long (value 0 (d ∷ ds)) rest
unfolding strtol skip_space signed convert
strtol-digits d ds rest h hs e =
    let no_space : is_space d ≡ false = ground arith in
    let no_minus : (d == b'-') ≡ false = ground arith in
    let no_plus : (d == b'+') ≡ false = ground arith in
    let yes_digit : is_digit d ≡ true = ground arith in
    rw (no_space, no_minus, no_plus, yes_digit)
      (rw (scan_digits-digits (d ∷ ds) rest 0 (h, hs) e) refl)

-- What is accepted of a number, when nothing follows it.
accepted :
    (v lo hi d : ℕ)
    → hi < 2 ^ 31
    → (let l = plain_long v [] in
        if is_malformed l || (below (int_of l) lo || above (int_of l) hi) then d else int_of l)
      ≡ (if ltb v (2 ^ 63) && (leb lo (v % 2 ^ 32) && leb (v % 2 ^ 32) hi) then v % 2 ^ 32 else d)
accepted v lo hi d h = ground arith

strtol_whole :
    (d : ℕ) (ds : List ℕ)
    → IsDigit d
    → All IsDigit ds
    → strtol (d ∷ ds) ≡ plain_long (value 0 (d ∷ ds)) []
strtol_whole d ds h hs = ap strtol (sym (append-nil (d ∷ ds))) ∙ strtol-digits d ds [] h hs refl

-- A text of decimal digits that spell a number of 63 bits gives a timeout, or blocks, if the number
-- modulo 2 ^ 32 is from 0 to 25, or from 6 to 32, and then it gives that remainder; in every other
-- case it gives the default.
pub arguments-digits :
    (d : ℕ) (ds : List ℕ)
    → IsDigit d
    → All IsDigit ds
    → let v = value 0 (d ∷ ds) in
      let w = v % 2 ^ 32 in
      (get_ow_xfr_timeout_argument (d ∷ ds)
        ≡ (if ltb v (2 ^ 63) && (leb 0 w && leb w 25) then w else 10))
      × (get_ow_blocks_per_transfer_argument (d ∷ ds)
          ≡ (if ltb v (2 ^ 63) && (leb 6 w && leb w 32) then w else 24))
unfolding get_ow_xfr_timeout_argument get_ow_blocks_per_transfer_argument
arguments-digits d ds h hs = rw (strtol_whole d ds h hs) (
  accepted (value 0 (d ∷ ds)) 0 25 10 (omega arith),
  accepted (value 0 (d ∷ ds)) 6 32 24 (omega arith),
)

-- The two numbers that one character separates are those that their digits spell, modulo 2 ^ 8,
-- where they fit a `long` and the character is not a digit.
get_bus_address_from_str-digits :
    (b a sep : ℕ) (bs rest : List ℕ)
    → IsDigit b × All IsDigit bs
    → IsDigit a × All IsDigit rest
    → is_digit sep ≡ false
    → value 0 (b ∷ bs) < 2 ^ 63
    → value 0 (a ∷ rest) < 2 ^ 63
    → get_bus_address_from_str ((b ∷ bs) ++ sep ∷ a ∷ rest) ≡ record {
      is_error = false;
      bus = value 0 (b ∷ bs) % 2 ^ 8;
      address = value 0 (a ∷ rest) % 2 ^ 8;
    }
unfolding get_bus_address_from_str get_address
get_bus_address_from_str-digits b a sep bs rest h k no_digit small small' =
    rw (strtol-digits b bs (sep ∷ a ∷ rest) h.0 h.1 no_digit)
      (rw (strtol_whole a rest k.0 k.1) (ground arith))
