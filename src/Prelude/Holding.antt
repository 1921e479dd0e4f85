-- ===== src/Prelude/Holding.antt =====
-- Sequences of calls that take resources and give them back.
use mathlib.Core.Path.{◌≡◌, ap}
use mathlib.Core.Logic.{inl, inr}
use mathlib.Core.Bool.{Bool}
use mathlib.Core.Option.{Option, none, some, some-injective}
use mathlib.Core.List.{List, [], ◌∷◌, ◌++◌}
use native.Mathlib.Omega.{arith}
use overwitch.Prelude.Tests.{if◌then◌else◌, Option-cases}
use overwitch.Prelude.Predicates.{◌>>=◌}

-- A state that is reached if a test holds.
abbrev pub allow : {S : Type 0} → Bool → S → Option S
allow b s = if b then some s else none

module _ {S C : Type 0} (hold : S → C → Option S) where
  -- The calls in their order; `none` where one of them is not allowed.
  unfoldable pub hold_all : S → List C → Option S
  hold_all s [] = some s
  hold_all s (c ∷ cs) = do s' ← hold s c; hold_all s' cs

  pub hold_all-append :
      (s s' : S) (xs ys : List C) → hold_all s xs ≡ some s' → hold_all s (xs ++ ys) ≡ hold_all s' ys
  unfolding hold_all
  hold_all-append s s' [] ys e = ap (λ k. hold_all k ys) (some-injective s s' e)
  hold_all-append s s' (x ∷ xs) ys e = elim (Option-cases (hold s x)) [
    | inl n ↦ absurd (ground (arith, n, e))
    | inr (k, q) ↦
        let rest : hold_all k xs ≡ some s' = ground (arith, q, e) in
        rw q (hold_all-append k s' xs ys rest)
  ]
