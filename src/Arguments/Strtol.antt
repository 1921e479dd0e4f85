-- ===== src/Arguments/Strtol.antt =====
-- `strtol (s, &end, 10)` of C, and the conversions and comparisons of its result. A `long` has 64
-- bits. An `int` is its pattern of 32 bits.
use overwitch.Prelude.{
  ℕ, ◌+◌, ◌-◌, ◌*◌, ◌%◌, ◌^◌, ltb, leb, ◌==◌, Bool, true, false, not, ◌&&◌, ◌||◌, if◌then◌else◌,
  List, [], ◌∷◌,
}

-- The value with its sign, `errno == ERANGE`, whether there were digits, and what `end` points to.
pub record Long : Type 0 where
  pub negative : Bool
  pub magnitude : ℕ
  pub out_of_range : Bool
  pub converted : Bool
  pub rest : List ℕ

abbrev pub is_digit : ℕ → Bool
is_digit c = leb b'0' c && leb c b'9'

-- `isspace`
abbrev pub is_space : ℕ → Bool
is_space c = c == b' ' || (leb 9 c && leb c 13)

unfoldable pub skip_space : List ℕ → List ℕ
skip_space [] = []
skip_space (c ∷ s) = if is_space c then skip_space s else c ∷ s

-- The digits in front, behind those whose value is `n`.
unfoldable pub scan_digits : ℕ → List ℕ → ℕ × List ℕ
scan_digits n [] = (n, [])
scan_digits n (c ∷ s) =
    let rest = scan_digits (n * 10 + (c - b'0')) s in if is_digit c then rest else (n, c ∷ s)

abbrev pub starts_digit : List ℕ → Bool
starts_digit [] = false
starts_digit (c ∷ s) = is_digit c

-- The greatest magnitude of a `long`.
abbrev pub long_max : Bool → ℕ
long_max negative = if negative then 2 ^ 63 else 2 ^ 63 - 1

unfoldable pub convert : Bool → List ℕ → List ℕ → Long
convert negative s digits =
    if starts_digit digits
    then (let (n, rest) = scan_digits 0 digits in
        let out_of_range = ltb (long_max negative) n in
        record {
          negative = negative;
          magnitude = if out_of_range then long_max negative else n;
          out_of_range = out_of_range;
          converted = true;
          rest = rest;
        })
    else record {
      negative = false;
      magnitude = 0;
      out_of_range = false;
      converted = false;
      rest = s;
    }

-- The sign, if there is one.
unfoldable pub signed : List ℕ → List ℕ → Long
unfolding convert
signed s [] = convert false s []
signed s (c ∷ t) =
    if c == b'-'
    then convert true s t
    else if c == b'+'
    then convert false s t
    else convert false s (c ∷ t)

unfoldable pub strtol : List ℕ → Long
unfolding skip_space signed
strtol s = signed s (skip_space s)

-- The conversion to a word of which `m` is the number of patterns.
abbrev pub word_of : ℕ → Long → ℕ
word_of m l = if l.negative then (m - l.magnitude % m) % m else l.magnitude % m

abbrev pub int_of : Long → ℕ
int_of l = word_of (2 ^ 32) l

abbrev pub byte_of : Long → ℕ
byte_of l = word_of (2 ^ 8) l

abbrev pub is_negative : ℕ → Bool
is_negative w = leb (2 ^ 31) w

-- `x < k` and `x > k` for an `int` and a constant that is not negative.
abbrev pub below : ℕ → ℕ → Bool
below w k = is_negative w || ltb w k

abbrev pub above : ℕ → ℕ → Bool
above w k = not (is_negative w) && ltb k w

abbrev pub is_nil : List ℕ → Bool
is_nil [] = true
is_nil (c ∷ s) = false
