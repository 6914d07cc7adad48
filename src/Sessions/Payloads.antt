-- ===== src/Sessions/Payloads.antt =====
-- The events, results and payloads of leira/sessions/sessions.py.
use leira.Prelude.{String, Bool, Option, none, some, List, [], ◌∷◌}
use leira.Value.{
  Value, Fields, null, str, dict, entries, optional, get, get_non_empty, as_dict, ◌>>=◌,
}
use leira.Errors.{ErrorType, error_name}

abbrev pub sessions_worker_id : String
sessions_worker_id = "kernel"

abbrev pub session_created_event : String
session_created_event = "session_created"

abbrev pub session_intent_added_event : String
session_intent_added_event = "session_intent_added"

abbrev pub session_intent_rejected_event : String
session_intent_rejected_event = "session_intent_rejected"

pub record SessionBundle : Type 0 where
  pub session_id : String
  pub created_at : String
  pub intent_ids : List String

pub record SessionResult : Type 0 where
  pub success : Bool
  pub session_id : Option String
  pub intent_id : Option String
  pub error_type : Option ErrorType

abbrev pub error_value : Option ErrorType → Value
error_value none = null
error_value (some x) = str (error_name x)

-- `_session_artifact`
abbrev pub session_artifact : String → Option String → Option ErrorType → Value
session_artifact session_id intent_id error_type = dict (
    entries (
      ("type", str "session_membership")
      ∷ (
        "content",
        dict (
            entries (
              ("session_id", str session_id)
              ∷ ("intent_id", optional intent_id)
              ∷ ("error_type", error_value error_type)
              ∷ [])),
      )
      ∷ []))

-- The payload of session_created.
abbrev pub created_fields : String → Fields
created_fields session_id =
    entries
      (("session_id", str session_id) ∷ ("artifact", session_artifact session_id none none) ∷ [])

-- The payload of session_intent_added and session_intent_rejected.
abbrev pub membership_fields : String → String → Option ErrorType → Fields
membership_fields session_id intent_id error_type = entries (
    ("session_id", str session_id)
    ∷ ("intent_id", str intent_id)
    ∷ ("error_type", error_value error_type)
    ∷ ("artifact", session_artifact session_id (some intent_id) error_type)
    ∷ [])

-- The dict under artifact.content, if there is one.
unfoldable pub artifact_content : Fields → Option Fields
artifact_content fs =
    get "artifact" fs >>= λ artifact. as_dict artifact >>= λ gs. get "content" gs >>= as_dict

-- `_payload_session_id` and `_payload_intent_id`: the id in the content, or else in the payload.
unfoldable pub payload_id : String → Fields → Option String
payload_id key fs = elim (artifact_content fs >>= λ content. get_non_empty key content) [
  | none ↦ get_non_empty key fs
  | some s ↦ some s
]
