-- ===== src/Prelude/Lists.antt =====
-- Lists measured by native numbers, filters by Boolean tests, and the end of a list.
use Prim.Native.Nat.{ℕ, suc, ◌+◌}
use mathlib.Core.Path.{◌≡◌, refl, ap}
use mathlib.Core.Bool.{Bool, true, ◌&&◌}
use mathlib.Core.Option.{Option, none, some}
use mathlib.Core.List.{List, [], ◌∷◌, ◌++◌, map}
use native.Mathlib.Omega.{arith}
use leira.Prelude.Tests.{if◌then◌else◌}

module _ {ℓ} {A : Type ℓ} where
  abbrev pub length : List A → ℕ
  length [] = 0
  length (x ∷ xs) = suc (length xs)

  -- `[x for x in xs if p(x)]`
  abbrev pub keep : (A → Bool) → List A → List A
  keep p [] = []
  keep p (x ∷ xs) = let rest = keep p xs in if p x then x ∷ rest else rest

  abbrev pub all : (A → Bool) → List A → Bool
  all p [] = true
  all p (x ∷ xs) = p x && all p xs

  abbrev pub last_from : A → List A → A
  last_from x [] = x
  last_from x (y ∷ ys) = last_from y ys

  -- `ORDER BY rowid DESC LIMIT 1`
  abbrev pub last : List A → Option A
  last [] = none
  last (x ∷ xs) = some (last_from x xs)

  pub length-append : (xs ys : List A) → length (xs ++ ys) ≡ length xs + length ys
  length-append [] ys = omega arith
  length-append (x ∷ xs) ys = omega (arith, length-append xs ys)

  pub keep-append : (p : A → Bool) (xs ys : List A) → keep p (xs ++ ys) ≡ keep p xs ++ keep p ys
  keep-append p [] ys = refl
  keep-append p (x ∷ xs) ys = ground (arith, keep-append p xs ys)

  last_from-snoc : (x y : A) (xs : List A) → last_from x (xs ++ y ∷ []) ≡ y
  last_from-snoc x y [] = refl
  last_from-snoc x y (z ∷ zs) = last_from-snoc z y zs

  pub last-snoc : (xs : List A) (y : A) → last (xs ++ y ∷ []) ≡ some y
  last-snoc [] y = refl
  last-snoc (x ∷ xs) y = ap some (last_from-snoc x y xs)

  pub keep-snoc :
      (p : A → Bool) (xs : List A) (x : A)
      → keep p (xs ++ x ∷ []) ≡ (if p x then keep p xs ++ x ∷ [] else keep p xs)
  keep-snoc p [] x = refl
  keep-snoc p (y ∷ ys) x = ground (arith, keep-snoc p ys x)

  pub map-snoc {κ} :
      {B : Type κ} (f : A → B) (xs : List A) (x : A) → map f (xs ++ x ∷ []) ≡ map f xs ++ f x ∷ []
  map-snoc f [] x = refl
  map-snoc f (y ∷ ys) x = ap (λ r. f y ∷ r) (map-snoc f ys x)

  pub last-cons :
      (x : A) (xs : List A) → last (x ∷ xs) ≡ (elim (last xs) [ none ↦ some x | some y ↦ some y ])
  last-cons x [] = refl
  last-cons x (y ∷ ys) = refl
