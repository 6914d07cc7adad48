-- ===== src/Provenance/Capture.antt =====
-- `capture_provenance`, `get_provenance` and `capture_environment`.
use leira.Prelude.{
  ℕ, zero, suc, ◌+◌, String, Bool, true, false, Option, none, some, ◌==◌, sort_by, precedes, ◌&&◌,
  ◌||◌, if◌then◌else◌,
}
use leira.Value.{str, dict, ◌>>=◌}
use leira.Platform.{Platform}
use leira.Table.{lookup, upsert}
use leira.Ledger.{Db, AppendResult, appended, refused, canonicalize_payload, append_event}
use leira.Receipts.{PackageInfo}
use leira.Provenance.{
  provenance_worker_id, environment_worker_id, observed, unobservable, Surroundings,
  CapturedProvenance, CapturedEnvironment, provenance_payload, environment_payload, provenance_row,
  provenance_snapshot, environment_row, provenance_event_type, captured, uncaptured,
  failure_snapshot,
}

-- `MAX_ENVIRONMENT_PAYLOAD_BYTES`
abbrev pub max_environment_payload_bytes : ℕ
max_environment_payload_bytes = 1048576

-- `a <= b`
unfoldable pub at_most : ℕ → ℕ → Bool
at_most zero n = true
at_most (suc m) zero = false
at_most (suc m) (suc n) = at_most m n

module _ {Text : Type 0} where
  unfoldable pub get_provenance : String → Db Text → Option CapturedProvenance
  get_provenance snapshot_id db =
      lookup snapshot_id db.provenance_rows >>= λ row. some (provenance_snapshot snapshot_id row)

module _ {Text : Type 0} (P : Platform Text) (S : Surroundings Text) where
  -- `_insert_projection`; its answer is dropped.
  unfoldable pub insert_provenance : CapturedProvenance → String → Db Text → Db Text
  insert_provenance s event_id db =
      if P.fails db.tick then record db { tick = db.tick + 1 } else record db {
        provenance_rows = upsert s.snapshot_id (provenance_row s event_id) db.provenance_rows;
        tick = db.tick + 1;
      }

  unfoldable pub capture_done :
      String → String → String → AppendResult → Db Text → CapturedProvenance × Db Text
  capture_done snapshot_id intent_id repo_path (refused x) db = (
    uncaptured snapshot_id intent_id repo_path (S.inspect_repo repo_path) (S.append_message x),
    db,
  )
  capture_done snapshot_id intent_id repo_path (appended event_id event_hash created_at) db =
      let s = captured snapshot_id intent_id repo_path (S.inspect_repo repo_path) created_at in
      (s, insert_provenance s event_id db)

  unfoldable pub capture_provenance : String → String → Db Text → CapturedProvenance × Db Text
  capture_provenance intent_id repo_path db =
      let snapshot_id = P.uuid4 db.tick in
      let r = S.inspect_repo repo_path in
      let (a, db') =
        append_event P (str (provenance_event_type r.success)) (str provenance_worker_id)
          (dict (provenance_payload (captured snapshot_id intent_id repo_path r ""))) none
          (some intent_id) (record db { tick = db.tick + 1 }) in
      capture_done snapshot_id intent_id repo_path a db'

  unfoldable pub insert_environment : CapturedEnvironment → String → Db Text → Db Text
  insert_environment s event_id db =
      if P.fails db.tick then record db { tick = db.tick + 1 } else record db {
        environment_rows = upsert s.snapshot_id (environment_row s event_id) db.environment_rows;
        tick = db.tick + 1;
      }

  unfoldable pub append_snapshot_done :
      CapturedEnvironment → AppendResult → Db Text → CapturedEnvironment × Db Text
  append_snapshot_done draft (refused x) db = (
    failure_snapshot draft.snapshot_id draft.intent_id "STORAGE_FAILURE" (S.append_message x),
    db,
  )
  append_snapshot_done draft (appended event_id event_hash created_at) db =
      let s : CapturedEnvironment = record draft { created_at = created_at } in
      (s, insert_environment s event_id db)

  -- `_append_snapshot`
  unfoldable pub append_snapshot :
      String → CapturedEnvironment → Db Text → CapturedEnvironment × Db Text
  append_snapshot event_type draft db =
      let (a, db') =
        append_event P (str event_type) (str environment_worker_id)
          (dict (environment_payload draft)) none (some draft.intent_id) db in
      append_snapshot_done draft a db'

  -- `sorted(packages, key=…)` of `_capture_packages`
  abbrev pub package_before : PackageInfo → PackageInfo → Bool
  package_before a b =
      precedes (P.lower a.name) (P.lower b.name)
      || (P.lower a.name == P.lower b.name && precedes a.version b.version)

  -- The event type and the draft that `capture_environment` records.
  unfoldable pub environment_draft : String → String → String × CapturedEnvironment
  environment_draft snapshot_id intent_id = elim S.runtime [
    | unobservable message ↦
        ("environment_capture_failed", failure_snapshot snapshot_id intent_id "UNEXPECTED" message)
    | observed python_version platform executable packages ↦
        (let draft : CapturedEnvironment = record {
          snapshot_id = snapshot_id;
          intent_id = intent_id;
          python_version = python_version;
          platform = platform;
          executable = executable;
          installed_packages = sort_by package_before packages;
          created_at = "";
          error_type = none;
          stderr = "";
        } in
          elim (canonicalize_payload P (dict (environment_payload draft))) [
            | none ↦ (
              "environment_capture_failed",
              failure_snapshot snapshot_id intent_id "UNEXPECTED" S.payload_message,
            )
            | some json ↦
                if at_most (S.size json) max_environment_payload_bytes
                then ("environment_captured", draft)
                else (
                  "environment_capture_failed",
                  failure_snapshot snapshot_id intent_id "ARTIFACT_TOO_LARGE"
                      "environment payload exceeded size limit",
                )
          ])
  ]

  unfoldable pub capture_environment : String → Db Text → CapturedEnvironment × Db Text
  capture_environment intent_id db =
      let (event_type, draft) = environment_draft (P.uuid4 db.tick) intent_id in
      append_snapshot event_type draft (record db { tick = db.tick + 1 })
