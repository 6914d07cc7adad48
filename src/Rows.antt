-- ===== src/Rows.antt =====
-- Rows of the projection tables that the modules of the program keep in the database beside the
-- ledger, each without its key.
use leira.Prelude.{ℕ, String, Bool, Option}

-- operation_state_projection, intent_projection and intent_claim_projection
pub record RunRow : Type 0 where
  pub current_state : String
  pub last_event_id : String
  pub updated_at : String

pub record IntentRow : Type 0 where
  pub status : String
  pub worker_name : Option String
  pub updated_at : String
  pub last_event_id : String

pub record ClaimRow : Type 0 where
  pub claim_id : String
  pub owner_id : String
  pub claimed_at : String
  pub last_event_id : String

-- inbox_entries
pub record InboxEntry (Text : Type 0) : Type 0 where
  pub created_at : String
  pub intent_type : String
  pub payload_json : Text
  pub status : String

-- worker_projection
pub record WorkerRow : Type 0 where
  pub registered_at : String
  pub last_event_id : String

-- receipt_projection
pub record ReceiptRow : Type 0 where
  pub first_event_id : String
  pub last_event_id : String
  pub event_count : ℕ
  pub updated_at : String

-- artifact_projection
pub record ArtifactRow : Type 0 where
  pub intent_id : String
  pub relative_path : String
  pub sha256 : String
  pub size_bytes : ℕ
  pub created_at : String
  pub last_event_id : String

-- provenance_projection
pub record ProvenanceRow : Type 0 where
  pub intent_id : String
  pub repo_path : String
  pub head_sha : Option String
  pub branch : Option String
  pub is_dirty : Option Bool
  pub status_porcelain : String
  pub created_at : String
  pub error_type : Option String
  pub stderr : String
  pub last_event_id : String

-- environment_projection
pub record EnvironmentRow : Type 0 where
  pub intent_id : String
  pub python_version : String
  pub platform : String
  pub executable : String
  pub created_at : String
  pub error_type : Option String
  pub last_event_id : String

-- session_projection
pub record SessionRow : Type 0 where
  pub intent_count : ℕ
  pub created_at : String
  pub last_event_id : String

-- session_membership_projection, with the two columns of its key
pub record MembershipRow : Type 0 where
  pub session_id : String
  pub intent_id : String
  pub membership_order : ℕ
  pub created_at : String
  pub last_event_id : String
