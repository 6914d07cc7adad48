-- ===== src/Provenance/Read.antt =====
-- `parse_environment_event` and `get_environment`.
use leira.Prelude.{String, ◌==◌, Option, none, some, List, [], ◌∷◌, if◌then◌else◌}
use leira.Value.{list, str, nil, optional, ◌>>=◌}
use leira.Platform.{Platform}
use leira.Table.{lookup}
use leira.Rows.{EnvironmentRow}
use leira.Ledger.{Db, LedgerEvent}
use leira.Receipts.{
  EnvironmentSnapshot, environment_of, environment_content, elements, get_or, packages_of,
}

-- `_row_to_snapshot` of an environment
abbrev pub environment_snapshot : String → EnvironmentRow → EnvironmentSnapshot
environment_snapshot snapshot_id row = record {
  snapshot_id = str snapshot_id;
  intent_id = str row.intent_id;
  python_version = str row.python_version;
  platform = str row.platform;
  executable = str row.executable;
  installed_packages = [];
  created_at = row.created_at;
  error_type = optional row.error_type;
  stderr = str "";
}

-- SELECT … FROM ledger_events WHERE id = ?
unfoldable pub find_event :
    {Text : Type 0} → String → List (LedgerEvent Text) → Option (LedgerEvent Text)
find_event i [] = none
find_event i (e ∷ es) = if e.id == i then some e else find_event i es

module _ {Text : Type 0} (P : Platform Text) where
  -- The outer `none` is a TypeError, which a number of packages raises once the keys are there.
  unfoldable pub parse_environment_event : LedgerEvent Text → Option (Option EnvironmentSnapshot)
  parse_environment_event e = elim (environment_content P e) [
    | none ↦ some none
    | some content ↦ elim (environment_of e.created_at [] content) [
      | none ↦ some none
      | some bare ↦ elements (get_or "installed_packages" (list nil) content) >>= λ items.
          some (some (record bare { installed_packages = packages_of items }))
    ]
  ]

  -- The outer `none` if it raises.
  unfoldable pub get_environment : String → Db Text → Option (Option EnvironmentSnapshot)
  get_environment snapshot_id db = elim (lookup snapshot_id db.environment_rows) [
    | none ↦ some none
    | some row ↦ elim (find_event row.last_event_id db.events) [
      | none ↦ some (some (environment_snapshot snapshot_id row))
      | some e ↦ parse_environment_event e >>= λ parsed. some (
          some (elim parsed [
            | none ↦ environment_snapshot snapshot_id row
            | some snapshot ↦ snapshot
          ]))
    ]
  ]
