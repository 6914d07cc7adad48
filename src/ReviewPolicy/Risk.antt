-- ===== src/ReviewPolicy/Risk.antt =====
-- The decision against the reasons that it gives.
use leira.Prelude.{
  ◌≡◌, refl, sym, String, Bool, true, false, not, ◌||◌, List, [], ◌∷◌, ◌++◌, ◌==◌, contains,
  if◌then◌else◌, arith,
}
use leira.ReviewPolicy.{
  ReviewPolicyInput, code_if, reason_codes_of, is_high, is_medium, decide_review_policy,
  high_reviewers, medium_reviewers, low_reviewers,
}

-- The level that reason codes stand for, and the reviewers of a level.
abbrev pub level_of_codes : List String → String
level_of_codes codes =
    if contains codes "invariant_change"
      || contains codes "authority_boundary_change"
      || contains codes "hard_to_undo"
    then "high"
    else if contains codes "new_concept" || contains codes "ordering_uncertain"
    then "medium"
    else "low"

abbrev pub reviewers_of_level : String → List String
reviewers_of_level level =
    if level == "high"
    then high_reviewers
    else if level == "medium"
    then medium_reviewers
    else low_reviewers

contains-append :
    (xs ys : List String) (x : String) → contains (xs ++ ys) x ≡ contains xs x || contains ys x
contains-append [] ys x = refl
contains-append (z ∷ xs) ys x = ground (arith, contains-append xs ys x)

contains-code_if :
    (b : Bool) (c x : String) → contains (code_if b c) x ≡ (if c == x then b else false)
contains-code_if true c x = ground arith
contains-code_if false c x = ground arith

-- Whether a code is given, flag by flag.
contains-reason_codes_of :
    (p : ReviewPolicyInput) (x : String)
    → contains (reason_codes_of p) x
      ≡ (if "mechanical_slice" == x then p.mechanical_implementation else false)
        || (if "already_agreed" == x then p.already_agreed_concept else false)
        || (if "new_concept" == x then p.introduces_new_concept else false)
        || (if "invariant_change" == x then p.changes_invariant else false)
        || (if "authority_boundary_change" == x then p.changes_authority_boundary else false)
        || (if "hard_to_undo" == x then p.irreversible_or_hard_to_undo else false)
        || (if "ordering_uncertain" == x then p.ordering_uncertain else false)
unfolding reason_codes_of
contains-reason_codes_of p x = simp (contains-append, contains-code_if)

level_of_flags :
    (new invariant boundary undo ordering : Bool)
    → ◌≡◌ {A = String}
        (if invariant || false || false || false || (boundary || false || false) || (undo || false)
          then "high"
          else if new || false || false || false || false || ordering
          then "medium"
          else "low")
        (if invariant || boundary || undo
          then "high"
          else if new || ordering
          then "medium"
          else "low")
level_of_flags new invariant boundary undo ordering = ground arith

reviewers_of_flags :
    (high medium : Bool)
    → ((if high then high_reviewers else if medium then medium_reviewers else low_reviewers)
        ≡ reviewers_of_level (if high then "high" else if medium then "medium" else "low"))
      × (high || medium
          ≡ not ((if high then "high" else if medium then "medium" else "low") == "low"))
reviewers_of_flags true m = (refl, refl)
reviewers_of_flags false true = (refl, refl)
reviewers_of_flags false false = (refl, refl)

-- The decision can be read off its reason codes alone: they determine the risk level, the risk
-- level determines the reviewers, and a review is required unless the level is low.
pub decide_review_policy-codes :
    (p : ReviewPolicyInput)
    → (let d = decide_review_policy p in
        (d.risk_level ≡ level_of_codes d.reason_codes)
        × (d.recommended_reviewers ≡ reviewers_of_level d.risk_level)
        × (d.review_required ≡ not (d.risk_level == "low")))
unfolding decide_review_policy
decide_review_policy-codes p =
    let given = contains-reason_codes_of p in
    let (reviewed, needed) = reviewers_of_flags (is_high p) (is_medium p) in
    (
      rw
          (
            given "invariant_change",
            given "authority_boundary_change",
            given "hard_to_undo",
            given "new_concept",
            given "ordering_uncertain",
          )
          (sym (
            level_of_flags p.introduces_new_concept p.changes_invariant p.changes_authority_boundary
              p.irreversible_or_hard_to_undo p.ordering_uncertain)),
      reviewed,
      needed,
    )
