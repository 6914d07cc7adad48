-- ===== src/Tests/PureRuns.antt =====
-- The theorems on evidence, policies and envelopes, at small inputs.
use leira.Prelude.{◌≡◌, String, true, false, not, none, some, [], ◌∷◌, ◌↔◌, ◌⊎◌, contains, ◌==◌}
use leira.Value.{Value, str, dict, list, entries, nil, cons}
use leira.Evidence.{Evidence, evidence_labels, build_lifecycle_projection}
use leira.Evidence.Partition.{build_lifecycle_projection-partition}
use leira.FlowPolicy.{FlowRule, FlowPolicy, evaluate_flow_policy}
use leira.FlowPolicy.First.{FindsFirst, evaluate_flow_policy_first}
use leira.ReviewPolicy.{ReviewPolicyInput, decide_review_policy}
use leira.ReviewPolicy.Risk.{level_of_codes, reviewers_of_level, decide_review_policy-codes}
use leira.Envelope.{validate_operation}
use leira.Envelope.Valid.{IsEnvelope, validate_operation-IsEnvelope}

abbrev some_evidence : Evidence String
some_evidence = record {
  prompt_draft = some "draft";
  knowledge_gap = none;
  review_question = none;
  review_record = none;
  prompt_revision = some "revision";
  human_decision = none;
  dispatch_record = none;
  implementation_report = none;
  verification_record = none;
}

build_lifecycle_projection-partition_example :
    (let p = build_lifecycle_projection "s" "slice" some_evidence in
      ((contains evidence_labels "Prompt Draft" ≡ true)
        × (contains p.missing_evidence "Prompt Draft"
            ≡ not (contains p.completed_evidence "Prompt Draft")))
      ⊎ ((contains evidence_labels "Prompt Draft" ≡ false)
          × (contains p.completed_evidence "Prompt Draft" ≡ false)
          × (contains p.missing_evidence "Prompt Draft" ≡ false)))
build_lifecycle_projection-partition_example =
    build_lifecycle_projection-partition "s" "slice" some_evidence "Prompt Draft"

abbrev review_rule : FlowRule
review_rule = record {
  rule_id = "review";
  required_completed = "Prompt Draft" ∷ [];
  required_missing = "Review Record" ∷ [];
  result_action = "REQUEST_REVIEW";
}

abbrev contradictory_rule : FlowRule
contradictory_rule = record {
  rule_id = "never";
  required_completed = "Prompt Draft" ∷ [];
  required_missing = "Prompt Draft" ∷ [];
  result_action = "NEVER";
}

abbrev policy : FlowPolicy
policy = record { policy_name = "default"; rules = contradictory_rule ∷ review_rule ∷ [] }

evaluate_flow_policy_first_example :
    (let p = build_lifecycle_projection "s" "slice" some_evidence in
      FindsFirst p policy.rules (evaluate_flow_policy p policy))
evaluate_flow_policy_first_example =
    evaluate_flow_policy_first (build_lifecycle_projection "s" "slice" some_evidence) policy

abbrev slice : ReviewPolicyInput
slice = record {
  slice_id = "s";
  introduces_new_concept = true;
  changes_invariant = false;
  changes_authority_boundary = false;
  irreversible_or_hard_to_undo = false;
  ordering_uncertain = false;
  mechanical_implementation = true;
  already_agreed_concept = false;
}

decide_review_policy-codes_example :
    (let d = decide_review_policy slice in
      (d.risk_level ≡ level_of_codes d.reason_codes)
      × (d.recommended_reviewers ≡ reviewers_of_level d.risk_level)
      × (d.review_required ≡ not (d.risk_level == "low")))
decide_review_policy-codes_example = decide_review_policy-codes slice

abbrev envelope : Value
envelope = dict (
    entries (
      (
        "operation",
        dict (
            entries (
              ("id", str "op")
              ∷ ("objective", str "say hello")
              ∷ ("success_criteria", list (cons (str "hello is said") nil))
              ∷ [])),
      )
      ∷ []))

validate_operation-IsEnvelope_example :
    ((validate_operation envelope).success ≡ true) ↔ ((i : String) × IsEnvelope envelope i)
validate_operation-IsEnvelope_example = validate_operation-IsEnvelope envelope
