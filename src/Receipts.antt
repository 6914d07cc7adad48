-- ===== src/Receipts.antt =====
-- leira/receipts/receipts.py: the bundle of all events of one intent, and the table of the bundles'
-- shapes.
mod Snapshots
pub mod Shape
pub mod Contents
pub mod Export
unfoldable pub use Snapshots.*
use leira.Prelude.{
  ◌+◌, String, Bool, true, false, ◌&&◌, ◌||◌, Option, none, some, List, [], ◌∷◌, ◌==◌, contains,
  keep, length, last_from, if◌then◌else◌,
}
use leira.Value.{Fields, list, nil, get, get_str, get_non_empty, as_dict, ◌>>=◌}
use leira.Platform.{Platform}
use leira.Table.{Table, upsert}
use leira.Rows.{ReceiptRow}
use leira.Ledger.{Db, LedgerEvent}

-- The row of receipt_projection that describes a bundle with these events.
unfoldable pub shape_of : {Text : Type 0} → List (LedgerEvent Text) → Option ReceiptRow
shape_of [] = none
shape_of (e ∷ es) =
    let end_event = last_from e es in
    some (record {
      first_event_id = e.id;
      last_event_id = end_event.id;
      event_count = length (e ∷ es);
      updated_at = end_event.created_at;
    })

module _ {Text : Type 0} (P : Platform Text) where
  -- `event_type = 'run_created' AND operation_id = ?`
  unfoldable pub is_run_of : String → LedgerEvent Text → Bool
  is_run_of intent_id e =
      e.event_type == "run_created"
      && (elim e.operation_id [ none ↦ false | some operation_id ↦ operation_id == intent_id ])

  -- The run that such a row created.
  unfoldable pub minted_run : String → LedgerEvent Text → Option String
  minted_run intent_id e =
      if is_run_of intent_id e
      then (P.loads e.payload_json >>= λ v. as_dict v >>= λ fs. get_non_empty "run_id" fs)
      else none

  unfoldable pub mentions_any : List String → LedgerEvent Text → Bool
  mentions_any [] e = false
  mentions_any (run_id ∷ run_ids) e =
      P.mentions "run_id" run_id e.payload_json || mentions_any run_ids e

  -- A row that one of the queries finds.
  unfoldable pub is_receipt_event : String → List String → LedgerEvent Text → Bool
  is_receipt_event intent_id run_ids e =
      P.mentions "intent_id" intent_id e.payload_json
      || (is_run_of intent_id e || mentions_any run_ids e)

  -- The rows that the queries find, merged by their ids, which are distinct, and in the order of the
  -- ledger.
  unfoldable pub list_receipt_events : String → List (LedgerEvent Text) → List (LedgerEvent Text)
  list_receipt_events intent_id es =
      keep (is_receipt_event intent_id (gather (minted_run intent_id) es)) es

  -- `_update_receipt_projection`
  unfoldable pub update_receipt_projection : String → ReceiptRow → Db Text → Bool × Db Text
  update_receipt_projection intent_id row db =
      if P.fails db.tick then (false, record db { tick = db.tick + 1 }) else (
        true,
        record db { receipt_rows = upsert intent_id row db.receipt_rows; tick = db.tick + 1 },
      )

  -- The dict under content in a payload of this type.
  unfoldable pub content_of : String → LedgerEvent Text → Option Fields
  content_of type_name e = P.loads e.payload_json >>= λ v. as_dict v >>= λ fs.
      get_str "type" fs >>= λ t. if t == type_name then (get "content" fs >>= as_dict) else none

  unfoldable pub artifact_in : LedgerEvent Text → Option ArtifactDescriptor
  artifact_in e =
      if e.event_type == "artifact_file_written"
      then content_of "artifact_file" e >>= artifact_of e.created_at
      else none

  unfoldable pub provenance_in : LedgerEvent Text → Option ProvenanceSnapshot
  provenance_in e =
      if contains ("provenance_captured" ∷ "provenance_capture_failed" ∷ []) e.event_type
      then content_of "provenance" e >>= provenance_of e.created_at
      else none

  -- The content of an environment event.
  unfoldable pub environment_content : LedgerEvent Text → Option Fields
  environment_content e =
      if contains ("environment_captured" ∷ "environment_capture_failed" ∷ []) e.event_type
      then content_of "environment" e
      else none

  -- The third loop; `none` if it raises a TypeError.
  unfoldable pub environments_in : List (LedgerEvent Text) → Option (List EnvironmentSnapshot)
  environments_in [] = some []
  environments_in (e ∷ es) = elim (environment_content e) [
    | none ↦ environments_in es
    | some content ↦ elements (get_or "installed_packages" (list nil) content) >>= λ items.
        environments_in es >>= λ rest.
        some (elim (environment_of e.created_at (packages_of items) content) [
          | none ↦ rest
          | some snapshot ↦ snapshot ∷ rest
        ])
  ]

  abbrev pub bundle_of :
      String → ReceiptRow → List (LedgerEvent Text) → List EnvironmentSnapshot → ReceiptBundle Text
  bundle_of intent_id row events environment = record {
    intent_id = intent_id;
    first_event_id = row.first_event_id;
    last_event_id = row.last_event_id;
    event_count = row.event_count;
    events = events;
    artifacts = gather artifact_in events;
    provenance = gather provenance_in events;
    environment = environment;
  }

  -- `get_receipt_bundle`; the outer `none` if it raises, the inner for an intent without events.
  unfoldable pub get_receipt_bundle :
      String → Db Text → Option (Option (ReceiptBundle Text)) × Db Text
  get_receipt_bundle intent_id db =
      let events = list_receipt_events intent_id db.events in
      elim (shape_of events) [
        | none ↦ (some none, db)
        | some row ↦ elim (environments_in events) [
          | none ↦ (none, db)
          | some environment ↦ (
            some (some (bundle_of intent_id row events environment)),
            (update_receipt_projection intent_id row db).1,
          )
        ]
      ]

  -- The intents that `rebuild_receipt_projection` goes through.
  unfoldable pub submitted_intent : LedgerEvent Text → Option String
  submitted_intent e =
      if contains ("intent_submitted" ∷ "intent_rejected" ∷ []) e.event_type
      then (P.loads e.payload_json >>= λ v. as_dict v >>= λ fs. get_non_empty "intent_id" fs)
      else none

  unfoldable pub intent_ids_from : List String → List (LedgerEvent Text) → List String
  intent_ids_from seen [] = []
  intent_ids_from seen (e ∷ es) = elim (submitted_intent e) [
    | none ↦ intent_ids_from seen es
    | some intent_id ↦ elim (contains seen intent_id) [
      | true ↦ intent_ids_from seen es
      | false ↦ intent_id ∷ intent_ids_from (intent_id ∷ seen) es
    ]
  ]

  -- The inserts.
  unfoldable pub receipt_rows_of : List String → List (LedgerEvent Text) → Table ReceiptRow
  receipt_rows_of [] es = []
  receipt_rows_of (intent_id ∷ intent_ids) es =
      let rest = receipt_rows_of intent_ids es in
      elim (shape_of (list_receipt_events intent_id es)) [
        | none ↦ rest
        | some row ↦ (intent_id, row) ∷ rest
      ]

  unfoldable pub rebuild_receipt_projection : Db Text → Db Text
  rebuild_receipt_projection db =
      if P.fails db.tick then record db { tick = db.tick + 1 } else record db {
        receipt_rows = receipt_rows_of (intent_ids_from [] db.events) db.events;
        tick = db.tick + 1;
      }
