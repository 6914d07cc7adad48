-- ===== src/ReviewPolicy.antt =====
-- leira/review_policy/policy.py: which reviewers a slice needs, by explicit flags.
pub mod Risk
use leira.Prelude.{String, Bool, true, false, ◌||◌, List, [], ◌∷◌, ◌++◌, if◌then◌else◌}

abbrev pub low_reviewers : List String
low_reviewers = []

abbrev pub medium_reviewers : List String
medium_reviewers = "Aura" ∷ []

abbrev pub high_reviewers : List String
high_reviewers = "Aura" ∷ "Aether" ∷ "Claude" ∷ []

pub record ReviewPolicyInput : Type 0 where
  pub slice_id : String
  pub introduces_new_concept : Bool
  pub changes_invariant : Bool
  pub changes_authority_boundary : Bool
  pub irreversible_or_hard_to_undo : Bool
  pub ordering_uncertain : Bool
  pub mechanical_implementation : Bool
  pub already_agreed_concept : Bool

pub record ReviewPolicyDecision : Type 0 where
  pub review_required : Bool
  pub risk_level : String
  pub recommended_reviewers : List String
  pub reason_codes : List String

-- `if flag: codes.append(code)`
abbrev pub code_if : Bool → String → List String
code_if true code = code ∷ []
code_if false code = []

-- `_reason_codes`
unfoldable pub reason_codes_of : ReviewPolicyInput → List String
reason_codes_of p =
    code_if p.mechanical_implementation "mechanical_slice"
    ++ code_if p.already_agreed_concept "already_agreed"
    ++ code_if p.introduces_new_concept "new_concept"
    ++ code_if p.changes_invariant "invariant_change"
    ++ code_if p.changes_authority_boundary "authority_boundary_change"
    ++ code_if p.irreversible_or_hard_to_undo "hard_to_undo"
    ++ code_if p.ordering_uncertain "ordering_uncertain"

abbrev pub is_high : ReviewPolicyInput → Bool
is_high p = p.changes_invariant || p.changes_authority_boundary || p.irreversible_or_hard_to_undo

abbrev pub is_medium : ReviewPolicyInput → Bool
is_medium p = p.introduces_new_concept || p.ordering_uncertain

unfoldable pub decide_review_policy : ReviewPolicyInput → ReviewPolicyDecision
decide_review_policy p = record {
  review_required = is_high p || is_medium p;
  risk_level = if is_high p then "high" else if is_medium p then "medium" else "low";
  recommended_reviewers =
      if is_high p then high_reviewers else if is_medium p then medium_reviewers else low_reviewers;
  reason_codes = reason_codes_of p;
}
