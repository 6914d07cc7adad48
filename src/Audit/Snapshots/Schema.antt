-- ===== src/Audit/Snapshots/Schema.antt =====
-- The checks on the payloads of provenance and environment events, and on their snapshot ids.
use leira.Prelude.{
  String, Option, none, some, List, [], ◌∷◌, ◌++◌, ◌==◌, not, contains, each, sort_by,
  if◌then◌else◌,
}
use leira.Value.{Value, Items, Fields, nil, cons, get, get_str, get_non_empty, as_dict, ◌>>=◌}
use leira.Platform.{Platform}
use leira.Ledger.{LedgerEvent}
use leira.Receipts.{gather}
use leira.Audit.{report, report_if, parse_payload}
use leira.Audit.Events.{duplicates_from}
use leira.Audit.Snapshots.{
  provenance_event_types, environment_event_types, is_provenance, environment_packages,
  check_error_type, pair_precedes, same_pairs,
}

module _ {Text : Type 0} (P : Platform Text) where
  -- `_parse_provenance_content` and `_parse_environment_content`
  unfoldable pub parse_content : List String → String → LedgerEvent Text → Option Fields
  parse_content event_types type_name e =
      if contains event_types e.event_type
      then (parse_payload P e >>= λ payload. get_str "type" payload >>= λ t.
          if t == type_name then (get "content" payload >>= as_dict) else none)
      else none

  unfoldable pub parse_provenance_content : LedgerEvent Text → Option Fields
  parse_provenance_content e = parse_content provenance_event_types "provenance" e

  unfoldable pub parse_environment_content : LedgerEvent Text → Option Fields
  parse_environment_content e = parse_content environment_event_types "environment" e

  -- The round of `check_provenance_schema` for a provenance event.
  unfoldable pub provenance_schema_of : LedgerEvent Text → Option Fields → List String
  provenance_schema_of e none = report "PROVENANCE_SCHEMA_INVALID" e.id ∷ []
  provenance_schema_of e (some content) =
      if is_provenance content
      then check_error_type "provenance_capture_failed" "provenance_captured"
          "PROVENANCE_FAILURE_ERROR_TYPE_MISSING" "PROVENANCE_CAPTURE_ERROR_UNEXPECTED" e.event_type
          content e.id
      else report "PROVENANCE_SCHEMA_INVALID" e.id ∷ []

  unfoldable pub check_provenance_schema : List (LedgerEvent Text) → List String
  check_provenance_schema es =
      each
        (λ e.
          if contains provenance_event_types e.event_type
          then provenance_schema_of e (parse_provenance_content e)
          else [])
        es

  -- `(package["name"].lower(), package["version"])`
  unfoldable pub package_pair : Value → Option (String × String)
  package_pair v = as_dict v >>= λ item. get_str "name" item >>= λ name.
      get_str "version" item >>= λ version. some (P.lower name, version)

  unfoldable pub package_pairs : Items → Option (List (String × String))
  package_pairs nil = some []
  package_pairs (cons v vs) =
      package_pair v >>= λ pair. package_pairs vs >>= λ pairs. some (pair ∷ pairs)

  -- What is said of the installed packages.
  unfoldable pub packages_schema_of : String → Option (List (String × String)) → List String
  packages_schema_of event_id none = report "ENVIRONMENT_SCHEMA_INVALID" event_id ∷ []
  packages_schema_of event_id (some pairs) =
      report_if (not (same_pairs pairs (sort_by pair_precedes pairs)))
        "ENVIRONMENT_PACKAGES_NOT_SORTED" event_id

  unfoldable pub environment_schema_of : LedgerEvent Text → Fields → List String
  environment_schema_of e content = elim (environment_packages content) [
    | none ↦ report "ENVIRONMENT_SCHEMA_INVALID" e.id ∷ []
    | some items ↦
        packages_schema_of e.id (package_pairs items)
        ++ check_error_type "environment_capture_failed" "environment_captured"
            "ENVIRONMENT_FAILURE_ERROR_TYPE_MISSING" "ENVIRONMENT_CAPTURE_ERROR_UNEXPECTED"
            e.event_type content e.id
  ]

  unfoldable pub check_environment_schema : List (LedgerEvent Text) → List String
  check_environment_schema es =
      each
        (λ e. elim (parse_environment_content e) [
          | none ↦ []
          | some content ↦ environment_schema_of e content
        ])
        es

  unfoldable pub check_unique_provenance_snapshot_ids : List (LedgerEvent Text) → List String
  check_unique_provenance_snapshot_ids es =
      duplicates_from "DUPLICATE_PROVENANCE_SNAPSHOT_ID" []
        (gather (λ e. parse_provenance_content e >>= get_non_empty "snapshot_id") es)

  unfoldable pub check_unique_environment_snapshot_ids : List (LedgerEvent Text) → List String
  check_unique_environment_snapshot_ids es =
      duplicates_from "DUPLICATE_ENVIRONMENT_SNAPSHOT_ID" []
        (gather (λ e. parse_environment_content e >>= get_non_empty "snapshot_id") es)
