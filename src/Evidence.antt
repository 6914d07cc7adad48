-- ===== src/Evidence.antt =====
-- leira/lifecycle_projection/lifecycle.py: which evidence of a subject exists.
pub mod Partition
use leira.Prelude.{String, Bool, not, Option, List, [], ◌∷◌, is_some, if◌then◌else◌}

abbrev pub evidence_labels : List String
evidence_labels =
    "Prompt Draft" ∷ "Knowledge Gap" ∷ "Review Question" ∷ "Review Record" ∷ "Prompt Revision"
    ∷ "Human Decision" ∷ "Dispatch Record" ∷ "Implementation Report" ∷ "Verification Record" ∷ []

pub record EvidencePresence : Type 0 where
  pub label : String
  pub present : Bool

pub record LifecycleProjection : Type 0 where
  pub subject_id : String
  pub subject_kind : String
  pub prompt_draft_present : Bool
  pub knowledge_gap_present : Bool
  pub review_question_present : Bool
  pub review_record_present : Bool
  pub prompt_revision_present : Bool
  pub human_decision_present : Bool
  pub dispatch_record_present : Bool
  pub implementation_report_present : Bool
  pub verification_record_present : Bool
  pub missing_evidence : List String
  pub completed_evidence : List String

-- `tuple(label for label, present in zip(labels, presences) if present)`
unfoldable pub labels_present : List String → List Bool → List String
labels_present [] ps = []
labels_present (l ∷ ls) [] = []
labels_present (l ∷ ls) (p ∷ ps) = let rest = labels_present ls ps in if p then l ∷ rest else rest

-- The same with `if not present`.
unfoldable pub labels_missing : List String → List Bool → List String
labels_missing [] ps = []
labels_missing (l ∷ ls) [] = []
labels_missing (l ∷ ls) (p ∷ ps) =
    let rest = labels_missing ls ps in if not p then l ∷ rest else rest

unfoldable pub presence_entries : List String → List Bool → List EvidencePresence
presence_entries [] ps = []
presence_entries (l ∷ ls) [] = []
presence_entries (l ∷ ls) (p ∷ ps) = record { label = l; present = p } ∷ presence_entries ls ps

-- The evidence that the caller supplies, in the order of the labels.
pub record Evidence (A : Type 0) : Type 0 where
  pub prompt_draft : Option A
  pub knowledge_gap : Option A
  pub review_question : Option A
  pub review_record : Option A
  pub prompt_revision : Option A
  pub human_decision : Option A
  pub dispatch_record : Option A
  pub implementation_report : Option A
  pub verification_record : Option A

module _ {A : Type 0} where
  abbrev pub presences : Evidence A → List Bool
  presences e =
      is_some e.prompt_draft
      ∷ is_some e.knowledge_gap
      ∷ is_some e.review_question
      ∷ is_some e.review_record
      ∷ is_some e.prompt_revision
      ∷ is_some e.human_decision
      ∷ is_some e.dispatch_record
      ∷ is_some e.implementation_report
      ∷ is_some e.verification_record
      ∷ []

  unfoldable pub build_lifecycle_projection : String → String → Evidence A → LifecycleProjection
  build_lifecycle_projection subject_id subject_kind e = record {
    subject_id = subject_id;
    subject_kind = subject_kind;
    prompt_draft_present = is_some e.prompt_draft;
    knowledge_gap_present = is_some e.knowledge_gap;
    review_question_present = is_some e.review_question;
    review_record_present = is_some e.review_record;
    prompt_revision_present = is_some e.prompt_revision;
    human_decision_present = is_some e.human_decision;
    dispatch_record_present = is_some e.dispatch_record;
    implementation_report_present = is_some e.implementation_report;
    verification_record_present = is_some e.verification_record;
    missing_evidence = labels_missing evidence_labels (presences e);
    completed_evidence = labels_present evidence_labels (presences e);
  }

abbrev pub flags : LifecycleProjection → List Bool
flags p =
    p.prompt_draft_present ∷ p.knowledge_gap_present ∷ p.review_question_present
    ∷ p.review_record_present ∷ p.prompt_revision_present ∷ p.human_decision_present
    ∷ p.dispatch_record_present ∷ p.implementation_report_present ∷ p.verification_record_present
    ∷ []

unfoldable pub evidence_presence_table : LifecycleProjection → List EvidencePresence
evidence_presence_table p = presence_entries evidence_labels (flags p)
