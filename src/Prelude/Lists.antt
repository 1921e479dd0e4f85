-- ===== src/Prelude/Lists.antt =====
-- C arrays as lists, measured and indexed by native numbers, and `memcpy` into one.
use Prim.Native.Nat.{ℕ, zero, suc, ◌+◌, ◌-◌, ◌≤◌, ◌<◌, min}
use mathlib.Core.Path.{◌≡◌, refl, sym, ap}
use mathlib.Core.Bool.{Bool}
use mathlib.Core.List.{List, [], ◌∷◌, ◌++◌, map, append-nil}
use mathlib.Core.Option.{Option, none, some}
use overwitch.Prelude.Tests.{leb, le→leb, if◌then◌else◌}
use native.Mathlib.Nat.{suc-add, add-suc}
use native.Mathlib.Omega.{arith}

module _ {ℓ} {A : Type ℓ} where
  abbrev pub length : List A → ℕ
  length [] = 0
  length (x ∷ xs) = suc (length xs)

  abbrev pub get_elem? : List A → ℕ → Option A
  get_elem? [] i = none
  get_elem? (x ∷ xs) zero = some x
  get_elem? (x ∷ xs) (suc i) = get_elem? xs i

  abbrev pub take : ℕ → List A → List A
  take zero xs = []
  take (suc n) [] = []
  take (suc n) (x ∷ xs) = x ∷ take n xs

  abbrev pub drop : ℕ → List A → List A
  drop zero xs = xs
  drop (suc n) [] = []
  drop (suc n) (x ∷ xs) = drop n xs

  abbrev pub replicate : ℕ → A → List A
  replicate zero a = []
  replicate (suc n) a = a ∷ replicate n a

  -- How many elements a test accepts.
  abbrev pub count_if : (A → Bool) → List A → ℕ
  count_if is [] = 0
  count_if is (x ∷ xs) = (if is x then 1 else 0) + count_if is xs

  -- A copy of `xs` to the start of the array `buf`; `none` is a write past its end.
  unfoldable pub store : List A → List A → Option (List A)
  store buf xs = if leb (length xs) (length buf) then some (xs ++ drop (length xs) buf) else none

  drop-nil : (n : ℕ) → drop n [] ≡ []
  drop-nil zero = refl
  drop-nil (suc n) = refl

  take-nil : (n : ℕ) → take n [] ≡ []
  take-nil zero = refl
  take-nil (suc n) = refl

  pub length-append : (xs ys : List A) → length (xs ++ ys) ≡ length xs + length ys
  length-append [] ys = omega arith
  length-append (x ∷ xs) ys = omega (arith, length-append xs ys)

  pub count_if-append :
      (is : A → Bool) (xs ys : List A) → count_if is (xs ++ ys) ≡ count_if is xs + count_if is ys
  count_if-append is [] ys = omega arith
  count_if-append is (x ∷ xs) ys = omega (arith, count_if-append is xs ys)

  pub length-take : (n : ℕ) (xs : List A) → length (take n xs) ≡ min n (length xs)
  length-take zero xs = omega arith
  length-take (suc n) [] = omega arith
  length-take (suc n) (x ∷ xs) = omega (arith, length-take n xs)

  pub length-drop : (n : ℕ) (xs : List A) → length (drop n xs) ≡ length xs - n
  length-drop zero xs = omega arith
  length-drop (suc n) [] = omega arith
  length-drop (suc n) (x ∷ xs) = omega (arith, length-drop n xs)

  pub length-replicate : (n : ℕ) (a : A) → length (replicate n a) ≡ n
  length-replicate zero a = refl
  length-replicate (suc n) a = ap suc (length-replicate n a)

  pub take-append : (n : ℕ) (xs ys : List A) → length xs ≡ n → take n (xs ++ ys) ≡ xs
  take-append zero [] ys h = refl
  take-append zero (x ∷ xs) ys h = absurd (omega arith)
  take-append (suc n) [] ys h = absurd (omega arith)
  take-append (suc n) (x ∷ xs) ys h = ap (λ r. x ∷ r) (take-append n xs ys (omega arith))

  pub drop-drop : (m n : ℕ) (xs : List A) → drop m (drop n xs) ≡ drop (m + n) xs
  drop-drop m zero xs = ap (λ k. drop k xs) (omega arith)
  drop-drop m (suc n) [] = rw add-suc (drop-nil m)
  drop-drop m (suc n) (x ∷ xs) = rw add-suc (drop-drop m n xs)

  pub drop-length : (n : ℕ) (xs : List A) → length xs ≡ n → drop n xs ≡ []
  drop-length zero [] h = refl
  drop-length zero (x ∷ xs) h = absurd (omega arith)
  drop-length (suc n) [] h = refl
  drop-length (suc n) (x ∷ xs) h = drop-length n xs (omega arith)

  pub drop-append : (n : ℕ) (xs ys : List A) → length xs ≡ n → drop n (xs ++ ys) ≡ ys
  drop-append zero [] ys h = refl
  drop-append zero (x ∷ xs) ys h = absurd (omega arith)
  drop-append (suc n) [] ys h = absurd (omega arith)
  drop-append (suc n) (x ∷ xs) ys h = drop-append n xs ys (omega arith)

  pub take-add : (m n : ℕ) (xs : List A) → take (m + n) xs ≡ take m xs ++ take n (drop m xs)
  take-add zero n xs = ap (λ k. take k xs) (omega arith)
  take-add (suc m) n [] = rw suc-add (sym (take-nil n))
  take-add (suc m) n (x ∷ xs) = rw suc-add (ap (λ r. x ∷ r) (take-add m n xs))

  pub take-length : (n : ℕ) (xs : List A) → length xs ≡ n → take n xs ≡ xs
  take-length zero [] h = refl
  take-length zero (x ∷ xs) h = absurd (omega arith)
  take-length (suc n) [] h = refl
  take-length (suc n) (x ∷ xs) h = ap (λ r. x ∷ r) (take-length n xs (omega arith))

module _ {ℓ κ} {A : Type ℓ} {B : Type κ} where
  pub length-map : (f : A → B) (xs : List A) → length (map f xs) ≡ length xs
  length-map f [] = refl
  length-map f (x ∷ xs) = ap suc (length-map f xs)

module _ {ℓ} {A : Type ℓ} where
  -- A copy that fits changes no length.
  pub length-store :
      (buf xs : List A)
      → length xs ≤ length buf
      → (buf' : List A) × (store buf xs ≡ some buf') × (length buf' ≡ length buf)
  unfolding store
  length-store buf xs h = (
    xs ++ drop (length xs) buf,
    rw (le→leb _ _ h),
    omega (arith, length-append xs (drop (length xs) buf), length-drop (length xs) buf),
  )

  -- A copy of the array's length replaces it.
  pub store_all : (buf xs : List A) → length xs ≡ length buf → store buf xs ≡ some xs
  unfolding store
  store_all buf xs h =
      rw (le→leb (length xs) (length buf) (omega arith))
        (rw (drop-length (length xs) buf (sym h), append-nil))

  -- It is what the array then starts with.
  pub store-take :
      (buf xs : List A) (n : ℕ)
      → length xs ≡ n
      → n ≤ length buf
      → (buf' : List A) × (store buf xs ≡ some buf')
        × ((length buf' ≡ length buf) × (take n buf' ≡ xs))
  unfolding store
  store-take buf xs n e h =
      let k : length xs ≤ length buf = omega (arith, e, h) in
      (
        xs ++ drop (length xs) buf,
        rw (le→leb _ _ k),
        (
          omega (arith, length-append xs (drop (length xs) buf), length-drop (length xs) buf),
          take-append n xs _ e,
        ),
      )

  pub store-none : (buf xs : List A) → length buf < length xs → store buf xs ≡ none
  unfolding store
  store-none buf xs h = ground arith

  pub take-take : (m n : ℕ) (xs : List A) → m ≤ n → take m (take n xs) ≡ take m xs
  take-take zero n xs h = refl
  take-take (suc m) zero xs h = absurd (omega arith)
  take-take (suc m) (suc n) [] h = refl
  take-take (suc m) (suc n) (x ∷ xs) h = ap (λ r. x ∷ r) (take-take m n xs (omega arith))

  pub take-drop : (n : ℕ) (xs : List A) → take n xs ++ drop n xs ≡ xs
  take-drop zero xs = refl
  take-drop (suc n) [] = refl
  take-drop (suc n) (x ∷ xs) = ap (λ r. x ∷ r) (take-drop n xs)

  pub nil_of_length : (xs : List A) → length xs ≡ 0 → xs ≡ []
  nil_of_length [] h = refl
  nil_of_length (x ∷ xs) h = absurd (omega arith)
