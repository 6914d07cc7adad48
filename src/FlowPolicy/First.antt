-- ===== src/FlowPolicy/First.antt =====
-- Which rule is chosen.
use leira.Prelude.{
  ap, ◌≡◌, refl, String, Bool, true, false, not, ◌&&◌, none, some, List, [], ◌∷◌, ◌++◌, all,
  contains, inl, inr, Bool-cases, map, ◌==◌, eq_iff, sym,
}
use leira.Evidence.{LifecycleProjection, Evidence, build_lifecycle_projection}
use leira.Evidence.Partition.{build_lifecycle_projection-partition}
use leira.FlowPolicy.{
  no_match, FlowRule, FlowPolicy, FlowPolicyProjection, rule_matches, matched_line, skipped_line,
  evaluate_rules, evaluate_flow_policy,
}

abbrev pub NoneMatches : LifecycleProjection → List FlowRule → Type 0
NoneMatches p rules = all (λ rule. not (rule_matches rule p)) rules ≡ true

-- What the loop of `evaluate_flow_policy` finds.
pub data FindsFirst (p : LifecycleProjection) (rules : List FlowRule) (r : FlowPolicyProjection)
    : Type 0 where
  first_match :
      (before after : List FlowRule) (rule : FlowRule)
      → rules ≡ before ++ rule ∷ after
      → NoneMatches p before
      → rule_matches rule p ≡ true
      → r.matched_rule_id ≡ some rule.rule_id
      → r.recommended_action ≡ rule.result_action
      → r.evaluation_trace ≡ map skipped_line before ++ matched_line rule ∷ []
      → FindsFirst p rules r
  no_match_found :
      NoneMatches p rules
      → r.matched_rule_id ≡ none
      → r.recommended_action ≡ no_match
      → r.evaluation_trace ≡ map skipped_line rules
      → FindsFirst p rules r

found_in :
    (p : LifecycleProjection) (policy_name : String) (rules : List FlowRule)
    → FindsFirst p rules
        (evaluate_flow_policy p (record { policy_name = policy_name; rules = rules }))
unfolding evaluate_flow_policy evaluate_rules
found_in p policy_name [] = no_match_found refl refl refl refl
found_in p policy_name (rule ∷ rules) = elim (Bool-cases (rule_matches rule p)) [
  | inl fits ↦
      first_match [] rules rule refl refl fits (rw (fits, evaluate_rules) refl)
        (rw (fits, evaluate_rules) refl) (rw (fits, evaluate_rules) refl)
  | inr skips ↦ elim (found_in p policy_name rules) [
    | first_match before after found split none_before fits its does traced ↦
        first_match (rule ∷ before) after found (ap (λ r. rule ∷ r) split) (rw skips none_before)
          fits (rw (skips, evaluate_rules) its) (rw (skips, evaluate_rules) does)
          (rw (skips, evaluate_rules) (ap (λ r. skipped_line rule ∷ r) traced))
    | no_match_found none_there its does traced ↦
        no_match_found (rw skips none_there) (rw (skips, evaluate_rules) its)
          (rw (skips, evaluate_rules) does)
          (rw (skips, evaluate_rules) (ap (λ r. skipped_line rule ∷ r) traced))
  ]
]

-- `evaluate_flow_policy` recommends the action of the first rule that matches, and its trace says
-- SKIPPED for each rule before it and MATCHED for it, and nothing of the rules after it; when no
-- rule matches it recommends NO_MATCH, and all rules are SKIPPED.
pub evaluate_flow_policy_first :
    (p : LifecycleProjection) (policy : FlowPolicy)
    → FindsFirst p policy.rules (evaluate_flow_policy p policy)
evaluate_flow_policy_first p policy = found_in p policy.policy_name policy.rules

and_left : (a b : Bool) → a && b ≡ true → a ≡ true
and_left true b h = refl
and_left false b h = h

and_right : (a b : Bool) → a && b ≡ true → b ≡ true
and_right true b h = h
and_right false b h = absurd (cc)

all-contains :
    (xs : List String) (ls : List String) (x : String)
    → all (contains xs) ls ≡ true
    → contains ls x ≡ true
    → contains xs x ≡ true
all-contains xs [] x every h = absurd (cc)
all-contains xs (l ∷ ls) x every h = elim (Bool-cases (l == x)) [
  | inl e ↦ rw (sym ((eq_iff l x).0 e)) (and_left (contains xs l) (all (contains xs) ls) every)
  | inr e ↦
      all-contains xs ls x (and_right (contains xs l) (all (contains xs) ls) every) (rw e at h)
]

-- A rule that requires the same label to be completed and to be missing matches no projection
-- that `build_lifecycle_projection` builds.
pub rule_matches-contradictory :
    {A : Type 0} (subject_id subject_kind : String) (e : Evidence A) (rule : FlowRule)
    (label : String)
    → contains rule.required_completed label ≡ true
    → contains rule.required_missing label ≡ true
    → rule_matches rule (build_lifecycle_projection subject_id subject_kind e) ≡ false
unfolding rule_matches
rule_matches-contradictory subject_id subject_kind e rule label completed missing =
    let p = build_lifecycle_projection subject_id subject_kind e in
    elim (Bool-cases (rule_matches rule p)) [
      | inr no_fit ↦ no_fit
      | inl fits ↦
          let has =
            all-contains p.completed_evidence rule.required_completed label (and_left _ _ fits)
              completed in
          let lacks =
            all-contains p.missing_evidence rule.required_missing label
              (and_right (all (contains p.completed_evidence) rule.required_completed) _ fits)
              missing in
          elim (build_lifecycle_projection-partition subject_id subject_kind e label) [
            | inl (known, opposite) ↦
                let never : true ≡ false = rw (lacks, has) at opposite in absurd (cc)
            | inr (unknown, not_completed, not_missing) ↦ absurd (cc)
          ]
    ]
