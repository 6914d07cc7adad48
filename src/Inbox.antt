-- ===== src/Inbox.antt =====
-- leira/inbox/inbox.py: intents, recorded in the ledger and read back from it.
pub mod Status
pub mod Submit
use leira.Prelude.{
  ◌+◌, String, Bool, true, false, not, ◌&&◌, ◌||◌, Option, none, some, List, [], ◌∷◌, ◌==◌,
  contains, keep, is_some, if◌then◌else◌,
}
use leira.Value.{
  Value, Fields, null, str, dict, entries, get_str, get_non_empty, as_non_empty, as_dict, ◌>>=◌,
}
use leira.Platform.{Platform}
use leira.Errors.{
  ErrorType, invalid_envelope, non_serializable_payload, storage_failure, error_name, uncaught,
  is_uncaught,
}
use leira.Table.{Table, lookup, upsert}
use leira.Ledger.{
  Db, LedgerEvent, AppendResult, appended, refused, canonicalize_payload, payload_error,
  append_event,
}
use leira.Rows.{IntentRow}

abbrev pub inbox_worker_id : String
inbox_worker_id = "kernel"

abbrev pub intent_ledger_event_types : List String
intent_ledger_event_types =
    "intent_submitted" ∷ "intent_rejected" ∷ "intent_claimed" ∷ "intent_completed" ∷ "intent_failed"
    ∷ []

-- `INTENT_STATUS_BY_EVENT_TYPE`, with `none` for a KeyError.
unfoldable pub intent_status_by_event_type : String → Option String
intent_status_by_event_type event_type =
    if event_type == "intent_submitted"
    then some "PENDING"
    else if event_type == "intent_rejected"
    then some "REJECTED"
    else if event_type == "intent_claimed"
    then some "RUNNING"
    else if event_type == "intent_completed"
    then some "COMPLETED"
    else if event_type == "intent_failed"
    then some "FAILED"
    else none

abbrev pub terminal_intent_statuses : List String
terminal_intent_statuses = "REJECTED" ∷ "COMPLETED" ∷ "FAILED" ∷ []

abbrev pub is_terminal : String → Bool
is_terminal = contains terminal_intent_statuses

abbrev pub has_ended : Option String → Bool
has_ended none = false
has_ended (some s) = is_terminal s

pub record SubmitIntentResult : Type 0 where
  pub success : Bool
  pub intent_id : Option String
  pub status : Option String
  pub error_type : Option ErrorType

abbrev pub submit_failed : SubmitIntentResult
submit_failed = record {
  success = false;
  intent_id = none;
  status = none;
  error_type = some storage_failure;
}

-- The answer once everything is stored.
abbrev pub submitted : String → Option ErrorType → SubmitIntentResult
submitted intent_id none = record {
  success = true;
  intent_id = some intent_id;
  status = some "PENDING";
  error_type = none;
}
submitted intent_id (some x) = record {
  success = false;
  intent_id = some intent_id;
  status = some "REJECTED";
  error_type = some x;
}

abbrev pub submit_status : Option ErrorType → String
submit_status none = "PENDING"
submit_status (some x) = "REJECTED"

abbrev pub submit_event_type : Option ErrorType → String
submit_event_type none = "intent_submitted"
submit_event_type (some x) = "intent_rejected"

-- `error_type == "NON_SERIALIZABLE_PAYLOAD"`
unfoldable pub is_non_serializable : Option ErrorType → Bool
is_non_serializable (some non_serializable_payload) = true
is_non_serializable _ = false

-- The error of `validate_intent` for a payload that cannot be canonicalised.
abbrev pub unsaid : ErrorType → ErrorType
unsaid uncaught = uncaught
unsaid _ = non_serializable_payload

abbrev pub error_value : Option ErrorType → Value
error_value none = null
error_value (some x) = str (error_name x)

module _ {Text : Type 0} where
  -- The loop of `get_intent_status`, which stops at the first terminal status.
  unfoldable pub status_of : Option String → List (LedgerEvent Text) → Option String
  status_of status [] = status
  status_of status (e ∷ es) =
      let s = intent_status_by_event_type e.event_type in
      let rest = status_of s es in if has_ended s then s else rest

module _ {Text : Type 0} (P : Platform Text) where
  -- The rows that the query of `get_intent_status` finds.
  unfoldable pub is_intent_event : String → LedgerEvent Text → Bool
  is_intent_event intent_id e =
      contains intent_ledger_event_types e.event_type
      && P.mentions "intent_id" intent_id e.payload_json

  unfoldable pub intent_events : String → List (LedgerEvent Text) → List (LedgerEvent Text)
  intent_events intent_id es = keep (is_intent_event intent_id) es

  unfoldable pub get_intent_status : String → Db Text → Option String
  get_intent_status intent_id db = status_of none (intent_events intent_id db.events)

  -- `none` is valid, and `uncaught` a ValueError that the call raises.
  unfoldable pub validate_intent : Value → Value → Option ErrorType
  validate_intent intent_type payload = elim (as_dict payload) [
    | none ↦ some invalid_envelope
    | some fs ↦ elim (as_non_empty intent_type) [
      | none ↦ some invalid_envelope
      | some t ↦ elim (canonicalize_payload P payload) [
        | none ↦ some (unsaid (payload_error P payload))
        | some json ↦ none
      ]
    ]
  ]

  -- `intent_type` as it is stored
  abbrev pub stored_intent_type : Value → String
  stored_intent_type (str s) = s
  stored_intent_type v = P.repr v

  unfoldable pub stored_payload : Option ErrorType → Value → Value
  stored_payload error_type payload =
      if is_non_serializable error_type || not (is_some (as_dict payload))
      then dict (entries (("unrepresentable_payload_repr", str (P.repr payload)) ∷ []))
      else payload

  -- The payload of the event.
  abbrev pub intent_fields : String → Value → Value → Option ErrorType → Fields
  intent_fields intent_id intent_type payload error_type = entries (
      ("intent_id", str intent_id)
      ∷ ("intent_type", str (stored_intent_type intent_type))
      ∷ ("payload", stored_payload error_type payload)
      ∷ ("status", str (submit_status error_type))
      ∷ ("error_type", error_value error_type)
      ∷ [])

  -- The transaction on inbox_entries and intent_projection; a duplicate key fails it too.
  unfoldable pub store_intent :
      String → String → Text → String → String → String → Db Text → Bool × Db Text
  store_intent intent_id intent_type payload_json status created_at event_id db =
      if P.fails db.tick || is_some (lookup intent_id db.inbox_entries)
      then (false, record db { tick = db.tick + 1 })
      else (
        true,
        record db {
          inbox_entries =
              upsert intent_id
                (record {
                  created_at = created_at;
                  intent_type = intent_type;
                  payload_json = payload_json;
                  status = status;
                })
                db.inbox_entries;
          intent_states =
              upsert intent_id
                (record {
                  status = status;
                  worker_name = none;
                  updated_at = created_at;
                  last_event_id = event_id;
                })
                db.intent_states;
          tick = db.tick + 1;
        },
      )

  unfoldable pub submit_done :
      String
      → Value
      → Value
      → Option ErrorType
      → AppendResult
      → Db Text
      → Option SubmitIntentResult × Db Text
  submit_done intent_id intent_type payload error_type (refused x) db =
      (if is_uncaught (some x) then none else some submit_failed, db)
  submit_done intent_id intent_type payload error_type (appended event_id event_hash created_at)
        db =
      elim (canonicalize_payload P (stored_payload error_type payload)) [
        | none ↦ (none, db)
        | some payload_json ↦
            let (stored, db') =
              store_intent intent_id (stored_intent_type intent_type) payload_json
                (submit_status error_type) created_at event_id db in
            (some (if stored then submitted intent_id error_type else submit_failed), db')
      ]

  -- `submit_intent`; the result is `none` if it raises a ValueError, which it does for a payload with an
  -- integer that does not print.
  unfoldable pub submit_intent : Value → Value → Db Text → Option SubmitIntentResult × Db Text
  unfolding submit_done
  submit_intent intent_type payload db =
      let intent_id = P.uuid4 db.tick in
      let error_type = validate_intent intent_type payload in
      let start : Db Text = record db { tick = db.tick + 1 } in
      let (r, db') =
        append_event P (str (submit_event_type error_type)) (str inbox_worker_id)
          (dict (intent_fields intent_id intent_type payload error_type)) none none start in
      if is_uncaught error_type
      then (none, start)
      else submit_done intent_id intent_type payload error_type r db'

  -- `update_intent_projection`
  unfoldable pub update_intent_projection : String → IntentRow → Db Text → Bool × Db Text
  update_intent_projection intent_id row db =
      if P.fails db.tick then (false, record db { tick = db.tick + 1 }) else (
        true,
        record db { intent_states = upsert intent_id row db.intent_states; tick = db.tick + 1 },
      )

  abbrev pub intent_row_of : String → Option String → LedgerEvent Text → IntentRow
  intent_row_of status worker_name e = record {
    status = status;
    worker_name = worker_name;
    updated_at = e.created_at;
    last_event_id = e.id;
  }

  -- What the loop of `rebuild_intent_projection` reads off a row: the intent, its status and its
  -- worker, or `none` where it goes on with the next row.
  unfoldable pub intent_entry : LedgerEvent Text → Option (String × String × Option String)
  intent_entry e =
      if contains intent_ledger_event_types e.event_type
      then (P.loads e.payload_json >>= λ v. as_dict v >>= λ fs.
          get_non_empty "intent_id" fs >>= λ intent_id.
          get_str "status" fs >>= λ status. some (intent_id, status, get_str "worker_name" fs))
      else none

  -- The loop, with the rows so far and the intents that have ended.
  unfoldable pub rebuild_intents :
      Table IntentRow → List String → List (LedgerEvent Text) → Table IntentRow
  rebuild_intents rows ended [] = rows
  rebuild_intents rows ended (e ∷ es) = elim (intent_entry e) [
    | none ↦ rebuild_intents rows ended es
    | some (intent_id, status, worker_name) ↦ elim (contains ended intent_id) [
      | true ↦ rebuild_intents rows ended es
      | false ↦
          rebuild_intents (upsert intent_id (intent_row_of status worker_name e) rows)
            (if is_terminal status then intent_id ∷ ended else ended) es
    ]
  ]

  unfoldable pub rebuild_intent_projection : Db Text → Db Text
  rebuild_intent_projection db =
      if P.fails db.tick
      then record db { tick = db.tick + 1 }
      else record db { intent_states = rebuild_intents [] [] db.events; tick = db.tick + 1 }
