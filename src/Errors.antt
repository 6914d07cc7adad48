-- ===== src/Errors.antt =====
-- The error names that the result objects of the program carry in `error_type`.
use leira.Prelude.{String, Bool, true, false, Option, some}

pub data ErrorType : Type 0 where
  -- leira/dispatcher/kernel.py
  invalid_event_type invalid_worker_id invalid_payload db_error : ErrorType
  -- leira/dispatcher/lifecycle.py
  invalid_operation_id invalid_run_id run_not_found unsupported_event_type invalid_transition :
      ErrorType
  -- leira/inbox/inbox.py
  invalid_envelope non_serializable_payload storage_failure : ErrorType
  -- leira/claims/claims.py
  invalid_owner already_claimed no_active_claim owner_mismatch : ErrorType
  -- leira/dispatcher/dispatcher.py
  unknown_intent invalid_status invalid_worker unknown_worker : ErrorType
  -- leira/registry/registry.py
  duplicate_worker : ErrorType
  -- leira/sessions/sessions.py
  unknown_session duplicate_membership : ErrorType
  -- not an answer: the call raised a ValueError, and so did its callers
  uncaught : ErrorType

-- Whether the call raised.
abbrev pub is_uncaught : Option ErrorType → Bool
is_uncaught (some uncaught) = true
is_uncaught _ = false

-- The string in the source.
unfoldable pub error_name : ErrorType → String
error_name invalid_event_type = "INVALID_EVENT_TYPE"
error_name invalid_worker_id = "INVALID_WORKER_ID"
error_name invalid_payload = "INVALID_PAYLOAD"
error_name db_error = "DB_ERROR"
error_name invalid_operation_id = "INVALID_OPERATION_ID"
error_name invalid_run_id = "INVALID_RUN_ID"
error_name run_not_found = "RUN_NOT_FOUND"
error_name unsupported_event_type = "UNSUPPORTED_EVENT_TYPE"
error_name invalid_transition = "INVALID_TRANSITION"
error_name invalid_envelope = "INVALID_ENVELOPE"
error_name non_serializable_payload = "NON_SERIALIZABLE_PAYLOAD"
error_name storage_failure = "STORAGE_FAILURE"
error_name invalid_owner = "INVALID_OWNER"
error_name already_claimed = "ALREADY_CLAIMED"
error_name no_active_claim = "NO_ACTIVE_CLAIM"
error_name owner_mismatch = "OWNER_MISMATCH"
error_name unknown_intent = "UNKNOWN_INTENT"
error_name invalid_status = "INVALID_STATUS"
error_name invalid_worker = "INVALID_WORKER"
error_name unknown_worker = "UNKNOWN_WORKER"
error_name duplicate_worker = "DUPLICATE_WORKER"
error_name unknown_session = "UNKNOWN_SESSION"
error_name duplicate_membership = "DUPLICATE_MEMBERSHIP"
error_name uncaught = "ValueError"
