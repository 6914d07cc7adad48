-- ===== src/EngineeringKernel.antt =====
-- leira/missing_evidence_projection/missing_evidence.py,
-- leira/engineering_state_projection/engineering_state.py and leira/engineering_kernel/kernel.py:
-- the four stages from supplied evidence to an engineering snapshot.
pub mod Summary
use leira.Prelude.{ℕ, String, Option, List, length, map}
use leira.Evidence.{LifecycleProjection, Evidence, build_lifecycle_projection}
use leira.FlowPolicy.{FlowPolicy, FlowPolicyProjection, evaluate_flow_policy}

pub record MissingEvidence : Type 0 where
  pub label : String

pub record MissingEvidenceProjection : Type 0 where
  pub subject_id : String
  pub subject_kind : String
  pub missing_evidence : List MissingEvidence
  pub completed_evidence : List String
  pub missing_count : ℕ
  pub completed_count : ℕ

abbrev pub missing_label : String → MissingEvidence
missing_label l = record { label = l }

unfoldable pub build_missing_evidence_projection : LifecycleProjection → MissingEvidenceProjection
build_missing_evidence_projection p = record {
  subject_id = p.subject_id;
  subject_kind = p.subject_kind;
  missing_evidence = map missing_label p.missing_evidence;
  completed_evidence = p.completed_evidence;
  missing_count = length (map missing_label p.missing_evidence);
  completed_count = length p.completed_evidence;
}

pub record EngineeringSummary : Type 0 where
  pub completed_evidence_count : ℕ
  pub missing_evidence_count : ℕ
  pub recommended_action : String
  pub matched_rule : Option String

pub record EngineeringStateProjection : Type 0 where
  pub subject_id : String
  pub subject_kind : String
  pub lifecycle_projection : LifecycleProjection
  pub missing_evidence_projection : MissingEvidenceProjection
  pub flow_policy_projection : FlowPolicyProjection
  pub summary : EngineeringSummary

unfoldable pub build_engineering_state_projection :
    LifecycleProjection
    → MissingEvidenceProjection
    → FlowPolicyProjection
    → EngineeringStateProjection
build_engineering_state_projection p m f = record {
  subject_id = p.subject_id;
  subject_kind = p.subject_kind;
  lifecycle_projection = p;
  missing_evidence_projection = m;
  flow_policy_projection = f;
  summary = record {
    completed_evidence_count = m.completed_count;
    missing_evidence_count = m.missing_count;
    recommended_action = f.recommended_action;
    matched_rule = f.matched_rule_id;
  };
}

pub record EngineeringKernelResult : Type 0 where
  pub subject_id : String
  pub subject_kind : String
  pub lifecycle_projection : LifecycleProjection
  pub missing_evidence_projection : MissingEvidenceProjection
  pub flow_policy_projection : FlowPolicyProjection
  pub engineering_state_projection : EngineeringStateProjection

unfoldable pub run_engineering_kernel :
    {A : Type 0} → String → String → FlowPolicy → Evidence A → EngineeringKernelResult
run_engineering_kernel subject_id subject_kind policy e =
    let p = build_lifecycle_projection subject_id subject_kind e in
    let m = build_missing_evidence_projection p in
    let f = evaluate_flow_policy p policy in
    record {
      subject_id = subject_id;
      subject_kind = subject_kind;
      lifecycle_projection = p;
      missing_evidence_projection = m;
      flow_policy_projection = f;
      engineering_state_projection = build_engineering_state_projection p m f;
    }
