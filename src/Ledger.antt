-- ===== src/Ledger.antt =====
-- leira/dispatcher/kernel.py: the hash-chained ledger, over the database that all parts share.

pub mod Append
pub mod Fresh
pub mod Payload
pub mod Chain
pub mod History
use leira.Prelude.{
  ℕ, ◌+◌, String, Bool, false, Option, none, some, List, [], ◌∷◌, ◌++◌, ◌==◌, ◌||◌, last,
  if◌then◌else◌,
}
use leira.Value.{
  Value, Fields, str, dict, entries, optional, as_non_empty, as_dict, normalize_value, prints,
  ◌>>=◌,
}
use leira.Platform.{Platform}
use leira.Errors.{
  ErrorType, invalid_event_type, invalid_worker_id, invalid_payload, db_error, uncaught,
}
use leira.Table.{Table}
use leira.Rows.{
  RunRow, IntentRow, ClaimRow, InboxEntry, WorkerRow, ReceiptRow, ArtifactRow, ProvenanceRow,
  EnvironmentRow, SessionRow, MembershipRow,
}

abbrev pub genesis_parent_hash : String
genesis_parent_hash = "0000000000000000000000000000000000000000000000000000000000000000"

-- A row of ledger_events.
pub record LedgerEvent (Text : Type 0) : Type 0 where
  pub id : String
  pub operation_id : Option String
  pub parent_event_hash : String
  pub event_type : String
  pub worker_id : String
  pub payload_json : Text
  pub artifact_hash : Option String
  pub event_hash : String
  pub created_at : String

-- The SQLite file, how many draws were made from outside, and what workers were invoked with.
pub record Db (Text : Type 0) : Type 0 where
  pub events : List (LedgerEvent Text)
  pub run_states : Table RunRow
  pub intent_states : Table IntentRow
  pub inbox_entries : Table (InboxEntry Text)
  pub claim_rows : Table ClaimRow
  pub worker_rows : Table WorkerRow
  pub receipt_rows : Table ReceiptRow
  pub artifact_rows : Table ArtifactRow
  pub provenance_rows : Table ProvenanceRow
  pub environment_rows : Table EnvironmentRow
  pub session_rows : Table SessionRow
  pub membership_rows : List MembershipRow
  pub tick : ℕ
  pub calls : List Value

abbrev pub init : (Text : Type 0) → Db Text
init Text = record {
  events = [];
  run_states = [];
  intent_states = [];
  inbox_entries = [];
  claim_rows = [];
  worker_rows = [];
  receipt_rows = [];
  artifact_rows = [];
  provenance_rows = [];
  environment_rows = [];
  session_rows = [];
  membership_rows = [];
  tick = 0;
  calls = [];
}

pub data AppendResult : Type 0 where
  appended : (event_id event_hash created_at : String) → AppendResult
  refused : ErrorType → AppendResult

pub data ValidateChainResult : Type 0 where
  valid : (events_checked : ℕ) → ValidateChainResult
  chain_broken : (events_checked : ℕ) (failed_event_id : String) → ValidateChainResult
  hash_mismatch : (events_checked : ℕ) (failed_event_id : String) → ValidateChainResult

module _ {Text : Type 0} where
  -- The `PRIMARY KEY` test on the column id.
  unfoldable pub has_id : String → List (LedgerEvent Text) → Bool
  has_id i [] = false
  has_id i (e ∷ es) = e.id == i || has_id i es

  unfoldable pub head_hash : List (LedgerEvent Text) → String
  head_hash es = elim (last es) [ none ↦ genesis_parent_hash | some e ↦ e.event_hash ]

module _ {Text : Type 0} (P : Platform Text) where
  -- `none` is a raised exception, which `payload_error` names.
  unfoldable pub canonicalize_payload : Value → Option Text
  canonicalize_payload payload = as_dict payload >>= λ fs. normalize_value P.nfc (dict fs) >>= λ v.
      if prints P.prints_int v then some (P.dumps v) else none

  -- The exception: a `PayloadValidationError`, which `append_event` answers as INVALID_PAYLOAD, or the
  -- ValueError of `json.dumps`, which nothing catches.
  unfoldable pub payload_error : Value → ErrorType
  payload_error payload = elim (as_dict payload >>= λ fs. normalize_value P.nfc (dict fs)) [
    | none ↦ invalid_payload
    | some v ↦ uncaught
  ]

  unfoldable pub hash_input : String → String → String → Option String → Text → String → Fields
  hash_input parent_event_hash event_type worker_id artifact_hash payload_json created_at =
      entries (
        ("parent_event_hash", str (P.nfc parent_event_hash))
        ∷ ("event_type", str (P.nfc event_type))
        ∷ ("worker_id", str (P.nfc worker_id))
        ∷ ("artifact_hash", optional (artifact_hash >>= λ h. some (P.nfc h)))
        ∷ ("payload_json", str (P.text payload_json))
        ∷ ("created_at", str (P.nfc created_at))
        ∷ [])

  unfoldable pub compute_event_hash :
      String → String → String → Option String → Text → String → String
  compute_event_hash parent_event_hash event_type worker_id artifact_hash payload_json created_at =
      P.sha256 (
        P.dumps (
          dict (
            hash_input parent_event_hash event_type worker_id artifact_hash payload_json
              created_at)))

  -- The row that `append_event` inserts.
  unfoldable pub new_event :
      String → String → Text → Option String → Option String → Db Text → LedgerEvent Text
  new_event event_type worker_id payload_json artifact_hash operation_id db =
      let parent_event_hash = head_hash db.events in
      let created_at = P.now db.tick in
      record {
        id = P.uuid4 (db.tick + 1);
        operation_id = operation_id;
        parent_event_hash = parent_event_hash;
        event_type = event_type;
        worker_id = worker_id;
        payload_json = payload_json;
        artifact_hash = artifact_hash;
        event_hash =
            compute_event_hash parent_event_hash event_type worker_id artifact_hash payload_json
              created_at;
        created_at = created_at;
      }

  -- The transaction of `append_event`: a failed insert rolls back.
  unfoldable pub insert_event : LedgerEvent Text → Db Text → AppendResult × Db Text
  insert_event e db =
      if P.fails (db.tick + 2) || has_id e.id db.events
      then (refused db_error, record db { tick = db.tick + 3 })
      else (
        appended e.id e.event_hash e.created_at,
        record db { events = db.events ++ e ∷ []; tick = db.tick + 3 },
      )

  unfoldable pub append_event :
      Value → Value → Value → Option String → Option String → Db Text → AppendResult × Db Text
  append_event event_type worker_id payload artifact_hash operation_id db =
      elim (as_non_empty event_type) [
        | none ↦ (refused invalid_event_type, db)
        | some t ↦ elim (as_non_empty worker_id) [
          | none ↦ (refused invalid_worker_id, db)
          | some w ↦ elim (canonicalize_payload payload) [
            | none ↦ (refused (payload_error payload), db)
            | some json ↦ insert_event (new_event t w json artifact_hash operation_id db) db
          ]
        ]
      ]

  -- The loop of `validate_chain`.
  unfoldable pub check_from : String → ℕ → List (LedgerEvent Text) → ValidateChainResult
  check_from expected_parent_hash idx [] = valid idx
  check_from expected_parent_hash idx (e ∷ es) =
      let rest = check_from e.event_hash (idx + 1) es in
      let recomputed =
        compute_event_hash e.parent_event_hash e.event_type e.worker_id e.artifact_hash
          e.payload_json e.created_at in
      if e.parent_event_hash == expected_parent_hash
      then (if recomputed == e.event_hash then rest else hash_mismatch idx e.id)
      else chain_broken idx e.id

  unfoldable pub validate_chain : Db Text → ValidateChainResult
  unfolding check_from
  validate_chain db = check_from genesis_parent_hash 0 db.events
