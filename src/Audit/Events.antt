-- ===== src/Audit/Events.antt =====
-- The checks of leira/audit/auditor.py that look at single rows and their order.
use leira.Prelude.{
  ℕ, String, Bool, true, false, Option, none, some, List, [], ◌∷◌, ◌++◌, ◌<>◌, ◌==◌, not, ◌&&◌,
  is_some, contains, precedes, each, if◌then◌else◌,
}
use leira.Value.{Value, Fields, pos, bool, int, get, get_str, get_non_empty, as_dict, ◌>>=◌}
use leira.Platform.{Platform}
use leira.Ledger.{LedgerEvent}
use leira.Projection.{run_lifecycle_event_types}
use leira.Audit.{report_if, parse_payload, event_run_id}

abbrev pub artifact_file_written_event : String
artifact_file_written_event = "artifact_file_written"

-- `isinstance(v, int) and v >= 0`, and the number; a bool is an int.
abbrev pub as_size : Value → Option ℕ
as_size (int (pos n)) = some n
as_size (bool true) = some 1
as_size (bool false) = some 0
as_size v = none

unfoldable pub duplicates_from : String → List String → List String → List String
duplicates_from code seen [] = []
duplicates_from code seen (x ∷ xs) =
    report_if (contains seen x) code x ++ duplicates_from code (x ∷ seen) xs

module _ {Text : Type 0} (P : Platform Text) where
  -- What is wrong with one column, `value is None or value == ""`.
  abbrev pub missing_field : String → String → String → List String
  missing_field event_id name value =
      report_if (value == "") "MISSING_REQUIRED_FIELD" (event_id <> ":" <> name)

  unfoldable pub required_fields_of : LedgerEvent Text → List String
  required_fields_of e =
      missing_field e.id "id" e.id
      ++ missing_field e.id "parent_event_hash" e.parent_event_hash
      ++ missing_field e.id "event_type" e.event_type
      ++ missing_field e.id "worker_id" e.worker_id
      ++ missing_field e.id "payload_json" (P.text e.payload_json)
      ++ missing_field e.id "event_hash" e.event_hash
      ++ missing_field e.id "created_at" e.created_at

  unfoldable pub check_required_fields : List (LedgerEvent Text) → List String
  check_required_fields es = each required_fields_of es

  unfoldable pub duplicate_ids_from : List String → List (LedgerEvent Text) → List String
  duplicate_ids_from seen [] = []
  duplicate_ids_from seen (e ∷ es) =
      report_if (contains seen e.id) "DUPLICATE_EVENT_ID" e.id
      ++ duplicate_ids_from (e.id ∷ seen) es

  unfoldable pub check_duplicate_event_ids : List (LedgerEvent Text) → List String
  check_duplicate_event_ids es = duplicate_ids_from [] es

  unfoldable pub ordering_from : Option String → List (LedgerEvent Text) → List String
  ordering_from previous [] = []
  ordering_from none (e ∷ es) = ordering_from (some e.created_at) es
  ordering_from (some at) (e ∷ es) =
      report_if (precedes e.created_at at) "EVENT_ORDERING_NOT_MONOTONIC" e.id
      ++ ordering_from (some e.created_at) es

  unfoldable pub check_monotonic_ordering : List (LedgerEvent Text) → List String
  check_monotonic_ordering es = ordering_from none es

  unfoldable pub run_id_presence_of : LedgerEvent Text → List String
  run_id_presence_of e =
      report_if
        (contains run_lifecycle_event_types e.event_type && not (is_some (event_run_id P e)))
        "MISSING_RUN_ID" e.id

  unfoldable pub check_run_id_presence : List (LedgerEvent Text) → List String
  check_run_id_presence es = each run_id_presence_of es

  -- `known_run_ids`
  unfoldable pub known_run_ids : List (LedgerEvent Text) → List String
  known_run_ids [] = []
  known_run_ids (e ∷ es) =
      let rest = known_run_ids es in
      if e.event_type == "run_created"
      then (elim (event_run_id P e) [ none ↦ rest | some run_id ↦ run_id ∷ rest ])
      else rest

  -- A payload of artifact_written with a known run and a well-formed artifact.
  unfoldable pub is_artifact_payload : List String → Fields → Bool
  is_artifact_payload run_ids payload = elim (get_non_empty "run_id" payload) [
    | none ↦ false
    | some run_id ↦
        contains run_ids run_id
        && is_some (
            get "artifact" payload >>= λ v.
            as_dict v >>= λ artifact. get_str "type" artifact >>= λ t. get "content" artifact)
  ]

  -- A payload of artifact_file_written with all its fields.
  unfoldable pub is_artifact_file_payload : Fields → Bool
  is_artifact_file_payload payload = elim (get_str "type" payload) [
    | none ↦ false
    | some t ↦
        t == "artifact_file"
        && is_some (
            get "content" payload >>= λ v. as_dict v >>= λ content.
            get_non_empty "artifact_id" content >>= λ a. get_non_empty "intent_id" content >>= λ i.
            get_non_empty "relative_path" content >>= λ r.
            get_non_empty "sha256" content >>= λ s. get "size_bytes" content >>= as_size)
  ]

  abbrev pub satisfies : (Fields → Bool) → Option Fields → Bool
  satisfies p none = false
  satisfies p (some fs) = p fs

  unfoldable pub check_artifact_schema : List (LedgerEvent Text) → List String
  check_artifact_schema es =
      let run_ids = known_run_ids es in
      each
        (λ e.
          report_if
            (e.event_type == "artifact_written"
              && not (satisfies (is_artifact_payload run_ids) (parse_payload P e)))
            "ARTIFACT_SCHEMA_INVALID" e.id)
        es
      ++ each
          (λ e.
            report_if
              (e.event_type == artifact_file_written_event
                && not (satisfies is_artifact_file_payload (parse_payload P e)))
              "ARTIFACT_SCHEMA_INVALID" e.id)
          es
