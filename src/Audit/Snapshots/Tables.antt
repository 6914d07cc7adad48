-- ===== src/Audit/Snapshots/Tables.antt =====
-- The tables that the auditor expects of artifacts, provenance and environments, and their
-- comparison with the projections.
use leira.Prelude.{String, Option, none, some, List, [], ◌∷◌, ◌++◌, ◌==◌, if◌then◌else◌}
use leira.Value.{get, get_str, get_non_empty, as_dict, ◌>>=◌}
use leira.Platform.{Platform}
use leira.Table.{Table, upsert}
use leira.Rows.{ArtifactRow, ProvenanceRow, EnvironmentRow}
use leira.Ledger.{LedgerEvent}
use leira.Audit.{parse_payload, compare_expected, unexpected_entries}
use leira.Audit.Events.{artifact_file_written_event, as_size}
use leira.Audit.Snapshots.{
  get_text, get_flag, ExpectedProvenance, ExpectedEnvironment, judge_artifact, judge_provenance,
  judge_environment,
}
use leira.Audit.Snapshots.Schema.{parse_provenance_content, parse_environment_content}

module _ {Text : Type 0} {R : Type 0} where
  -- The loop `expected[key] = row` over the events that give a row.
  unfoldable pub expected_from :
      (LedgerEvent Text → Option (String × R)) → Table R → List (LedgerEvent Text) → Table R
  expected_from read expected [] = expected
  expected_from read expected (e ∷ es) = elim (read e) [
    | none ↦ expected_from read expected es
    | some (key, row) ↦ expected_from read (upsert key row expected) es
  ]

module _ {Text : Type 0} (P : Platform Text) where
  unfoldable pub expected_artifact : LedgerEvent Text → Option (String × ArtifactRow)
  expected_artifact e =
      if e.event_type == artifact_file_written_event
      then (parse_payload P e >>= λ payload. get "content" payload >>= λ v. as_dict v >>= λ content.
          get_non_empty "artifact_id" content >>= λ artifact_id.
          get_non_empty "intent_id" content >>= λ intent_id.
          get_non_empty "relative_path" content >>= λ relative_path.
          get_non_empty "sha256" content >>= λ digest. get "size_bytes" content >>= λ size.
          as_size size >>= λ size_bytes. some (
            artifact_id,
            record {
              intent_id = intent_id;
              relative_path = relative_path;
              sha256 = digest;
              size_bytes = size_bytes;
              created_at = e.created_at;
              last_event_id = e.id;
            },
          ))
      else none

  unfoldable pub compute_expected_artifact_projection : List (LedgerEvent Text) → Table ArtifactRow
  compute_expected_artifact_projection es = expected_from expected_artifact [] es

  unfoldable pub check_artifact_projection :
      Table ArtifactRow → List (LedgerEvent Text) → List String
  check_artifact_projection actual es =
      compare_expected judge_artifact (compute_expected_artifact_projection es) actual
      ++ unexpected_entries "ARTIFACT_PROJECTION_UNEXPECTED_ENTRY"
          (compute_expected_artifact_projection es) actual

  unfoldable pub expected_provenance : LedgerEvent Text → Option (String × ExpectedProvenance)
  expected_provenance e = parse_provenance_content P e >>= λ content.
      get_non_empty "snapshot_id" content >>= λ snapshot_id.
      get_non_empty "intent_id" content >>= λ intent_id.
      get_str "repo_path" content >>= λ repo_path.
      get_str "status_porcelain" content >>= λ status_porcelain.
      get_text "stderr" content >>= λ stderr. get_flag "is_dirty" content >>= λ is_dirty. some (
        snapshot_id,
        record {
          intent_id = intent_id;
          repo_path = repo_path;
          is_dirty = is_dirty;
          status_porcelain = status_porcelain;
          created_at = e.created_at;
          stderr = stderr;
          last_event_id = e.id;
          content = content;
        },
      )

  unfoldable pub compute_expected_provenance_projection :
      List (LedgerEvent Text) → Table ExpectedProvenance
  compute_expected_provenance_projection es = expected_from expected_provenance [] es

  unfoldable pub check_provenance_projection :
      Table ProvenanceRow → List (LedgerEvent Text) → List String
  check_provenance_projection actual es =
      compare_expected judge_provenance (compute_expected_provenance_projection es) actual
      ++ unexpected_entries "PROVENANCE_PROJECTION_UNEXPECTED_ENTRY"
          (compute_expected_provenance_projection es) actual

  unfoldable pub expected_environment : LedgerEvent Text → Option (String × ExpectedEnvironment)
  expected_environment e = parse_environment_content P e >>= λ content.
      get_non_empty "snapshot_id" content >>= λ snapshot_id.
      get_non_empty "intent_id" content >>= λ intent_id.
      get_str "python_version" content >>= λ python_version.
      get_str "platform" content >>= λ platform. get_str "executable" content >>= λ executable.
      some (
        snapshot_id,
        record {
          intent_id = intent_id;
          python_version = python_version;
          platform = platform;
          executable = executable;
          created_at = e.created_at;
          last_event_id = e.id;
          content = content;
        },
      )

  unfoldable pub compute_expected_environment_projection :
      List (LedgerEvent Text) → Table ExpectedEnvironment
  compute_expected_environment_projection es = expected_from expected_environment [] es

  unfoldable pub check_environment_projection :
      Table EnvironmentRow → List (LedgerEvent Text) → List String
  check_environment_projection actual es =
      compare_expected judge_environment (compute_expected_environment_projection es) actual
      ++ unexpected_entries "ENVIRONMENT_PROJECTION_UNEXPECTED_ENTRY"
          (compute_expected_environment_projection es) actual
