-- ===== src/Prelude/Sorted.antt =====
-- Sorting texts, and collecting the reports that a check makes of each element of a list.
use Prim.Native.Nat.{lt, eq, gt}
use Prim.Native.String.{String, compare}
use mathlib.Core.Path.{◌≡◌, refl, sym}
use mathlib.Core.Bool.{Bool, true, false}
use mathlib.Core.List.{List, [], ◌∷◌, ◌++◌}
use mathlib.Core.Logic.{inl, inr}
use leira.Prelude.Tests.{if◌then◌else◌, contains, ◌==◌, eq_iff, Bool-cases}

-- `s < t` for texts
abbrev pub precedes : String → String → Bool
precedes s t = elim (compare s t) [ lt ↦ true | eq ↦ false | gt ↦ false ]

module _ {ℓ} {A : Type ℓ} where
  unfoldable pub insert_by : (A → A → Bool) → A → List A → List A
  insert_by before x [] = x ∷ []
  insert_by before x (y ∷ ys) =
      let rest = insert_by before x ys in if before y x then y ∷ rest else x ∷ y ∷ ys

  -- A stable sort by a strict order.
  unfoldable pub sort_by : (A → A → Bool) → List A → List A
  sort_by before [] = []
  sort_by before (x ∷ xs) = insert_by before x (sort_by before xs)

-- `sorted(texts)`
unfoldable pub sorted : List String → List String
unfolding sort_by
sorted ss = sort_by precedes ss

pub sorted_nil : sorted [] ≡ []
unfolding sorted sort_by
sorted_nil = refl

module _ {ℓ} {A : Type ℓ} where
  -- The reports on each element, one after the other.
  unfoldable pub each : (A → List String) → List A → List String
  each f [] = []
  each f (x ∷ xs) = f x ++ each f xs

  pub each_silent : (f : A → List String) (xs : List A) → ((x : A) → f x ≡ []) → each f xs ≡ []
  unfolding each
  each_silent f [] quiet = refl
  each_silent f (x ∷ xs) quiet = rw (quiet x) (each_silent f xs quiet)

module _ {ℓ} {A : Type ℓ} where
  pub empty-append : (xs ys : List A) → xs ++ ys ≡ [] → (xs ≡ []) × (ys ≡ [])
  empty-append [] ys h = (refl, h)
  empty-append (x ∷ xs) ys h = absurd (cc)

module _ {ℓ} {A : Type ℓ} (before : A → A → Bool) (f : A → List String) where
  each-insert_by :
      (x : A) (xs : List A) → each f (insert_by before x xs) ≡ [] → (f x ≡ []) × (each f xs ≡ [])
  unfolding each insert_by
  each-insert_by x [] quiet = ((empty-append (f x) [] quiet).0, refl)
  each-insert_by x (y ∷ ys) quiet = elim (Bool-cases (before y x)) [
    | inr here ↦ empty-append (f x) (each f (y ∷ ys)) (rw (here) at quiet)
    | inl later ↦
        let (first, rest) =
          empty-append (f y) (each f (insert_by before x ys)) (rw (later) at quiet) in
        let (own, others) = each-insert_by x ys rest in (own, rw (first) others)
  ]

  -- What is silent over a sorted list is silent over the list.
  pub each-sort_by : (xs : List A) → each f (sort_by before xs) ≡ [] → each f xs ≡ []
  unfolding each sort_by
  each-sort_by [] quiet = refl
  each-sort_by (x ∷ xs) quiet =
      let (own, others) = each-insert_by x (sort_by before xs) quiet in
      rw (own) (each-sort_by xs others)

pub each-sorted :
    (f : String → List String) (xs : List String) → each f (sorted xs) ≡ [] → each f xs ≡ []
unfolding sorted
each-sorted f xs quiet = each-sort_by precedes f xs quiet

-- What is silent over a list is silent at each of its elements.
pub each-contains :
    (f : String → List String) (xs : List String) (k : String)
    → each f xs ≡ []
    → contains xs k ≡ true
    → f k ≡ []
unfolding each
each-contains f [] k quiet found = absurd (cc)
each-contains f (x ∷ xs) k quiet found =
    let (own, others) = empty-append (f x) (each f xs) quiet in
    elim (Bool-cases (x == k)) [
      | inl same ↦ rw (sym ((eq_iff x k).0 same)) own
      | inr apart ↦ each-contains f xs k others (rw (apart) at found)
    ]

-- `errors.extend(…)`, list after list
unfoldable pub joined : List (List String) → List String
joined [] = []
joined (xs ∷ xss) = xs ++ joined xss

abbrev pub AllSilent : List (List String) → Type 0
AllSilent [] = Unit
AllSilent (xs ∷ xss) = (xs ≡ []) × AllSilent xss

pub joined-AllSilent : (xss : List (List String)) → joined xss ≡ [] → AllSilent xss
unfolding joined
joined-AllSilent [] quiet = tt
joined-AllSilent (xs ∷ xss) quiet =
    let (own, others) = empty-append xs (joined xss) quiet in (own, joined-AllSilent xss others)
