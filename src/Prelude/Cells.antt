-- ===== src/Prelude/Cells.antt =====
-- A write to one element of an array; `none` is a write out of its bounds.
use Prim.Native.Nat.{ℕ, zero, suc, ◌<◌}
use mathlib.Core.Path.{◌≡◌, refl, ap}
use mathlib.Core.List.{List, [], ◌∷◌, ◌++◌}
use mathlib.Core.Option.{Option, none, some}
use native.Mathlib.Omega.{arith}
use overwitch.Prelude.Lists.{length, take}
use overwitch.Prelude.Predicates.{◌>>=◌, Runs, Runs-some, Runs-bind}

module _ {A : Type 0} where
  -- `buffer[i] = a`
  unfoldable pub set_elem : List A → ℕ → A → Option (List A)
  set_elem [] i a = none
  set_elem (x ∷ xs) zero a = some (a ∷ xs)
  set_elem (x ∷ xs) (suc i) a = do ys ← set_elem xs i a; some (x ∷ ys)

  -- A write behind the first `i` elements adds one to them, and keeps them and the length.
  pub record IsPushed (xs : List A) (i : ℕ) (a : A) (ys : List A) : Type 0 where
    pub same_length : length ys ≡ length xs
    pub pushed : take (suc i) ys ≡ take i xs ++ a ∷ []

  pub set_elem-IsPushed :
      (xs : List A) (i : ℕ) (a : A) → i < length xs → Runs (set_elem xs i a) (IsPushed xs i a)
  unfolding set_elem
  set_elem-IsPushed [] i a h = absurd (omega arith)
  set_elem-IsPushed (x ∷ xs) zero a h = Runs-some _ _ (record { same_length = refl; pushed = refl })
  set_elem-IsPushed (x ∷ xs) (suc i) a h =
      Runs-bind _ (set_elem xs i a) _ _ (set_elem-IsPushed xs i a (omega arith)) (λ ys s.
        Runs-some _ _
          (record { same_length = ap suc s.same_length; pushed = ap (λ r. x ∷ r) s.pushed }))
