-- ===== src/Prelude/Predicates.antt =====
-- Predicates on lists by recursion, which the tactics read, and `do` blocks for partial code.
use mathlib.Core.Path.{◌≡◌, refl, ap₂, subst}
use mathlib.Core.Bool.{Bool, true, false}
use overwitch.Prelude.Tests.{if◌then◌else◌}
use mathlib.Core.List.{List, [], ◌∷◌, ◌++◌, map}
use mathlib.Core.Option.{Option, none, some}

infixl 5 ◌>>=◌
abbrev pub ◌>>=◌ {ℓ κ} : {A : Type ℓ} {B : Type κ} → Option A → (A → Option B) → Option B
none >>= f = none
some a >>= f = f a

abbrev pub All {ℓ} : {A : Type ℓ} → (A → Type 0) → List A → Type 0
All P [] = Unit
All P (x ∷ xs) = P x × All P xs

-- Two lists of one length whose elements are related in order.
abbrev pub Matches {ℓ κ} : {A : Type ℓ} {B : Type κ} → (A → B → Type 0) → List A → List B → Type 0
Matches P [] [] = Unit
Matches P [] (y ∷ ys) = ⊥
Matches P (x ∷ xs) [] = ⊥
Matches P (x ∷ xs) (y ∷ ys) = P x y × Matches P xs ys

module _ {ℓ κ} {A : Type ℓ} {B : Type κ} (P : A → B → Type 0) where
  pub Matches-append :
      (xs : List A) (ys : List B) (xs' : List A) (ys' : List B)
      → Matches P xs ys
      → Matches P xs' ys'
      → Matches P (xs ++ xs') (ys ++ ys')
  Matches-append [] [] xs' ys' h k = k
  Matches-append [] (y ∷ ys) xs' ys' h k = absurd h
  Matches-append (x ∷ xs) [] xs' ys' h k = absurd h
  Matches-append (x ∷ xs) (y ∷ ys) xs' ys' h k = (h.0, Matches-append xs ys xs' ys' h.1 k)

-- Where the relation is an equation, so are the images of the lists.
module _ {ℓ κ} {A : Type ℓ} {B : Type κ} {C : Type 0} (f : A → C) (g : B → C) where
  pub map-eq_of_Matches :
      (xs : List A) (ys : List B) → Matches (λ x y. f x ≡ g y) xs ys → map f xs ≡ map g ys
  map-eq_of_Matches [] [] h = refl
  map-eq_of_Matches [] (y ∷ ys) h = absurd h
  map-eq_of_Matches (x ∷ xs) [] h = absurd h
  map-eq_of_Matches (x ∷ xs) (y ∷ ys) h = ap₂ ◌∷◌ h.0 (map-eq_of_Matches xs ys h.1)

-- Partial code that returns, with a result of which `P` holds.
abbrev pub Runs {ℓ} : {A : Type ℓ} → Option A → (A → Type 0) → Type ℓ
Runs {A} m P = (a : A) × (m ≡ some a) × P a

module _ {ℓ} {A : Type ℓ} (P : A → Type 0) where
  pub Runs-some : (a : A) → P a → Runs (some a) P
  Runs-some a h = (a, refl, h)

  pub Runs-if :
      (b : Bool) (x y : Option A)
      → (b ≡ true → Runs x P)
      → (b ≡ false → Runs y P)
      → Runs (if b then x else y) P
  Runs-if true x y h k = h refl
  Runs-if false x y h k = k refl

  pub Runs-bind {κ} :
      {B : Type κ} (m : Option B) (f : B → Option A) (Q : B → Type 0)
      → Runs m Q
      → ((b : B) → Q b → Runs (f b) P)
      → Runs (m >>= f) P
  Runs-bind m f Q (b, e, q) k = rw e (k b q)

module _ {ℓ} {A : Type ℓ} (P Q : A → Type 0) where
  -- Code returns once: what is known of its result by two ways is known together.
  pub Runs-both : (m : Option A) → Runs m P → Runs m Q → Runs m (λ a. P a × Q a)
  Runs-both m (a, e, p) (b, f, q) = let same : b ≡ a = cc in (a, e, (p, subst Q same q))

module _ {ℓ} {A : Type ℓ} (P : A → Type 0) where
  -- What is known of code that returns holds of what it returned.
  pub Runs-result : (m : Option A) (a : A) → Runs m P → m ≡ some a → P a
  Runs-result m a (b, e, p) h = let same : b ≡ a = cc in subst P same p

module _ {ℓ} {A : Type ℓ} (P Q : A → Type 0) where
  pub Runs-weaken : (m : Option A) → Runs m P → ((a : A) → P a → Q a) → Runs m Q
  Runs-weaken m (a, e, p) f = (a, e, f a p)
