-- ===== src/Audit/Compare.antt =====
-- When the comparison of two tables reports nothing.
use leira.Prelude.{
  contains, ◌==◌, Bool-cases, each-contains, each-sorted, ap, true, eq_refl, arith, is_some, not,
  keep, map, ◌≡◌, refl, String, Option, some, List, [], ◌∷◌, inl, inr, Option-cases, each_silent,
  sorted, sorted_nil, ◌∙◌,
}
use leira.Table.{Table, lookup}
use leira.Audit.{report, judge_key, compare_expected, unexpected_entries, keys_of}

-- Nothing is reported of an expected table if each of its rows is judged well beside the row that
-- stands under the same key.
pub compare_expected-silent :
    {R S : Type 0} (judge : String → R → Option S → List String) (expected : Table R)
    (actual : Table S)
    → ((k : String) (r : R) → lookup k expected ≡ some r → judge k r (lookup k actual) ≡ [])
    → compare_expected judge expected actual ≡ []
unfolding compare_expected
compare_expected-silent judge expected actual good = each_silent _ (sorted (keys_of expected)) (λ k.
    elim (Option-cases (lookup k expected)) [
      | inl absent ↦ rw (absent) refl
      | inr (r, found) ↦ rw (found) (good k r found)
    ])

unlisted_silent :
    {R S : Type 0} (expected : Table R) (actual : Table S)
    → ((k : String) → is_some (lookup k actual) ≡ true → is_some (lookup k expected) ≡ true)
    → keep (λ k. not (is_some (lookup k expected))) (keys_of actual) ≡ []
unfolding lookup
unlisted_silent expected [] listed = refl
unlisted_silent expected ((j, s) ∷ rest) listed =
    let head : is_some (lookup j expected) ≡ true = listed j (rw (eq_refl j) refl) in
    rw (head) (unlisted_silent expected rest (λ k found. listed k (ground (arith, found))))

-- No entry is unexpected if each key of the actual table is one of the expected table.
pub unexpected_entries-silent :
    {R S : Type 0} (code : String) (expected : Table R) (actual : Table S)
    → ((k : String) → is_some (lookup k actual) ≡ true → is_some (lookup k expected) ≡ true)
    → unexpected_entries code expected actual ≡ []
unfolding unexpected_entries
unexpected_entries-silent code expected actual listed =
    ap (λ ks. map (report code) (sorted ks)) (unlisted_silent expected actual listed)
    ∙ ap (map (report code)) sorted_nil

contains-keys_of :
    {R : Type 0} (k : String) (t : Table R) (r : R)
    → lookup k t ≡ some r
    → contains (keys_of t) k ≡ true
unfolding lookup
contains-keys_of k [] r found = absurd (cc)
contains-keys_of k ((j, s) ∷ rest) r found = elim (Bool-cases (j == k)) [
  | inl own ↦ rw (own) refl
  | inr apart ↦ rw (apart) (contains-keys_of k rest r (rw (apart) at found))
]

-- A comparison that reports nothing has judged each expected row well.
pub judged-compare_expected :
    {R S : Type 0} (judge : String → R → Option S → List String) (expected : Table R)
    (actual : Table S) (k : String) (r : R)
    → compare_expected judge expected actual ≡ []
    → lookup k expected ≡ some r
    → judge k r (lookup k actual) ≡ []
unfolding compare_expected
judged-compare_expected judge expected actual k r quiet found =
    let here : judge_key judge actual k (lookup k expected) ≡ [] =
      each-contains (λ j. judge_key judge actual j (lookup j expected)) (keys_of expected) k
        (each-sorted (λ j. judge_key judge actual j (lookup j expected)) (keys_of expected) quiet)
        (contains-keys_of k expected r found) in
    rw (found) at here
