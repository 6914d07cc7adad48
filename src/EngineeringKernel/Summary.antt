-- ===== src/EngineeringKernel/Summary.antt =====
-- The summary of a run of the engineering kernel against the evidence it was given.
use leira.Prelude.{◌+◌, ◌≡◌, refl, String, List, [], ◌∷◌, length, map, arith, suc, ap}
use leira.Evidence.{Evidence, build_lifecycle_projection}
use leira.Evidence.Partition.{build_lifecycle_projection-count}
use leira.FlowPolicy.{FlowPolicy}
use leira.FlowPolicy.First.{FindsFirst, evaluate_flow_policy_first}
use leira.EngineeringKernel.{
  missing_label, build_missing_evidence_projection, build_engineering_state_projection,
  run_engineering_kernel,
}

length-missing : (ls : List String) → length (map missing_label ls) ≡ length ls
length-missing [] = refl
length-missing (l ∷ ls) = ap suc (length-missing ls)

-- The counts in the summary of a run add up to the nine kinds of evidence, and the rule and the
-- action in it are those of the first rule of the policy that matches the evidence.
pub run_engineering_kernel-summary :
    {A : Type 0} (subject_id subject_kind : String) (policy : FlowPolicy) (e : Evidence A)
    → (let r = run_engineering_kernel subject_id subject_kind policy e in
        let s = r.engineering_state_projection.summary in
        (s.completed_evidence_count + s.missing_evidence_count ≡ 9)
        × (s.matched_rule ≡ r.flow_policy_projection.matched_rule_id)
        × (s.recommended_action ≡ r.flow_policy_projection.recommended_action)
        × FindsFirst r.lifecycle_projection policy.rules r.flow_policy_projection)
unfolding run_engineering_kernel build_engineering_state_projection
    build_missing_evidence_projection
run_engineering_kernel-summary subject_id subject_kind policy e =
    let p = build_lifecycle_projection subject_id subject_kind e in
    (
      omega (
        arith,
        build_lifecycle_projection-count subject_id subject_kind e,
        length-missing p.missing_evidence,
      ),
      refl,
      refl,
      evaluate_flow_policy_first p policy,
    )
