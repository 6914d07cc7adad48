-- ===== src/FlowPolicy.antt =====
-- leira/flow_policy_projection/flow_policy.py: the first rule that a subject's evidence satisfies.
pub mod First
use leira.Prelude.{
  String, Bool, ◌&&◌, Option, none, some, List, [], ◌∷◌, ◌++◌, ◌<>◌, all, contains, if◌then◌else◌,
  map, join_lines,
}
use leira.Evidence.{LifecycleProjection}

abbrev pub no_match : String
no_match = "NO_MATCH"

abbrev pub provenance_notice : String
provenance_notice =
    "This projection evaluates explicit deterministic policy rules.\nIt performs no planning, approval, dispatch, execution or autonomous decision making."

pub record FlowRule : Type 0 where
  pub rule_id : String
  pub required_completed : List String
  pub required_missing : List String
  pub result_action : String

pub record FlowPolicy : Type 0 where
  pub policy_name : String
  pub rules : List FlowRule

pub record FlowPolicyProjection : Type 0 where
  pub subject_id : String
  pub policy_name : String
  pub matched_rule_id : Option String
  pub recommended_action : String
  pub evaluation_trace : List String

-- `_rule_matches`
unfoldable pub rule_matches : FlowRule → LifecycleProjection → Bool
rule_matches rule p =
    all (contains p.completed_evidence) rule.required_completed
    && all (contains p.missing_evidence) rule.required_missing

abbrev pub matched_line : FlowRule → String
matched_line rule = rule.rule_id <> ": MATCHED"

abbrev pub skipped_line : FlowRule → String
skipped_line rule = rule.rule_id <> ": SKIPPED"

-- The loop: the rule it stops at, and the trace from here on.
unfoldable pub evaluate_rules : LifecycleProjection → List FlowRule → Option FlowRule × List String
evaluate_rules p [] = (none, [])
evaluate_rules p (rule ∷ rules) =
    let (found, trace) = evaluate_rules p rules in
    if rule_matches rule p
    then (some rule, matched_line rule ∷ [])
    else (found, skipped_line rule ∷ trace)

abbrev pub action_of : Option FlowRule → String
action_of none = no_match
action_of (some rule) = rule.result_action

abbrev pub rule_id_of : Option FlowRule → Option String
rule_id_of none = none
rule_id_of (some rule) = some rule.rule_id

unfoldable pub evaluate_flow_policy : LifecycleProjection → FlowPolicy → FlowPolicyProjection
evaluate_flow_policy p policy =
    let (found, trace) = evaluate_rules p policy.rules in
    record {
      subject_id = p.subject_id;
      policy_name = policy.policy_name;
      matched_rule_id = rule_id_of found;
      recommended_action = action_of found;
      evaluation_trace = trace;
    }

abbrev pub or_none : Option String → String
or_none none = "None"
or_none (some s) = s

abbrev pub bullet : String → String
bullet s = "* " <> s

unfoldable pub flow_policy_projection_markdown : FlowPolicyProjection → String
flow_policy_projection_markdown p = join_lines (
    ("# Flow Policy Projection"
      ∷ ""
      ∷ "## Subject"
      ∷ ""
      ∷ p.subject_id
      ∷ ""
      ∷ "## Policy"
      ∷ ""
      ∷ p.policy_name
      ∷ ""
      ∷ "## Matched Rule"
      ∷ ""
      ∷ or_none p.matched_rule_id
      ∷ ""
      ∷ "## Recommended Action"
      ∷ ""
      ∷ p.recommended_action
      ∷ ""
      ∷ "## Evaluation Trace"
      ∷ ""
      ∷ [])
    ++ map bullet p.evaluation_trace
    ++ "" ∷ "## Provenance Notice" ∷ "" ∷ provenance_notice ∷ "" ∷ [])
