-- ===== src/Audit/Snapshots.antt =====
-- The checks of leira/audit/auditor.py on artifact_projection, provenance_projection and
-- environment_projection and on the events behind them.
pub mod Schema
pub mod Tables
use leira.Prelude.{
  ℕ, zero, suc, String, Bool, true, false, Option, none, some, List, [], ◌∷◌, ◌++◌, ◌==◌, not, ◌&&◌,
  ◌||◌, is_some, precedes,
}
use leira.Value.{Items, Fields, null, bool, str, list, get, get_str, get_non_empty, as_str, ◌>>=◌}
use leira.Rows.{ArtifactRow, ProvenanceRow, EnvironmentRow}
use leira.Audit.{report, report_if}

abbrev pub provenance_event_types : List String
provenance_event_types = "provenance_captured" ∷ "provenance_capture_failed" ∷ []

abbrev pub environment_event_types : List String
environment_event_types = "environment_captured" ∷ "environment_capture_failed" ∷ []

-- `isinstance(d.get(k, ""), str)`, and the text
unfoldable pub get_text : String → Fields → Option String
get_text k fs = elim (get k fs) [ none ↦ some "" | some v ↦ as_str v ]

-- `v is None or isinstance(v, bool)` for `d.get(k)`, and the answer
unfoldable pub get_flag : String → Fields → Option (Option Bool)
get_flag k fs = elim (get k fs) [
  | none ↦ some none
  | some v ↦ elim v [ null ↦ some none | bool b ↦ some (some b) | _ ↦ none ]
]

-- `d.get(k) is not None`
unfoldable pub is_given : String → Fields → Bool
is_given k fs = elim (get k fs) [ none ↦ false | some v ↦ elim v [ null ↦ false | _ ↦ true ] ]

-- Whether `d.get(k)` equals a column that may be NULL.
unfoldable pub says : String → Fields → Option String → Bool
says k fs column = elim (get k fs) [
  | none ↦ not (is_some column)
  | some v ↦ elim v [
    | null ↦ not (is_some column)
    | str s ↦ elim column [ none ↦ false | some t ↦ t == s ]
    | _ ↦ false
  ]
]

abbrev pub same_flag : Option Bool → Option Bool → Bool
same_flag none none = true
same_flag (some true) (some true) = true
same_flag (some false) (some false) = true
same_flag a b = false

abbrev pub same_size : ℕ → ℕ → Bool
same_size zero zero = true
same_size (suc m) (suc n) = same_size m n
same_size m n = false

abbrev pub judge_artifact : String → ArtifactRow → Option ArtifactRow → List String
judge_artifact artifact_id expected none = report "ARTIFACT_PROJECTION_MISMATCH" artifact_id ∷ []
judge_artifact artifact_id expected (some row) =
    report_if
      (not (
        row.intent_id == expected.intent_id
        && (row.relative_path == expected.relative_path
            && (row.sha256 == expected.sha256
                && (same_size row.size_bytes expected.size_bytes
                    && row.created_at == expected.created_at)))))
      "ARTIFACT_PROJECTION_MISMATCH" artifact_id
    ++ report_if (not (row.last_event_id == expected.last_event_id))
        "ARTIFACT_PROJECTION_LAST_EVENT_ID_MISMATCH" artifact_id

-- An expected row of provenance_projection: the content of the event with what was tested of it.
pub record ExpectedProvenance : Type 0 where
  pub intent_id : String
  pub repo_path : String
  pub is_dirty : Option Bool
  pub status_porcelain : String
  pub created_at : String
  pub stderr : String
  pub last_event_id : String
  pub content : Fields

unfoldable pub judge_provenance : String → ExpectedProvenance → Option ProvenanceRow → List String
judge_provenance snapshot_id expected none =
    report "PROVENANCE_PROJECTION_MISMATCH" snapshot_id ∷ []
judge_provenance snapshot_id expected (some row) =
    report_if
      (not (
        row.intent_id == expected.intent_id
        && (row.repo_path == expected.repo_path
            && (says "head_sha" expected.content row.head_sha
                && (says "branch" expected.content row.branch
                    && (same_flag row.is_dirty expected.is_dirty
                        && (row.status_porcelain == expected.status_porcelain
                            && (row.created_at == expected.created_at
                                && (says "error_type" expected.content row.error_type
                                    && row.stderr == expected.stderr)))))))))
      "PROVENANCE_PROJECTION_MISMATCH" snapshot_id
    ++ report_if (not (row.last_event_id == expected.last_event_id))
        "PROVENANCE_PROJECTION_LAST_EVENT_ID_MISMATCH" snapshot_id

-- An expected row of environment_projection.
pub record ExpectedEnvironment : Type 0 where
  pub intent_id : String
  pub python_version : String
  pub platform : String
  pub executable : String
  pub created_at : String
  pub last_event_id : String
  pub content : Fields

unfoldable pub judge_environment :
    String → ExpectedEnvironment → Option EnvironmentRow → List String
judge_environment snapshot_id expected none =
    report "ENVIRONMENT_PROJECTION_MISMATCH" snapshot_id ∷ []
judge_environment snapshot_id expected (some row) =
    report_if
      (not (
        row.intent_id == expected.intent_id
        && (row.python_version == expected.python_version
            && (row.platform == expected.platform
                && (row.executable == expected.executable
                    && (row.created_at == expected.created_at
                        && says "error_type" expected.content row.error_type))))))
      "ENVIRONMENT_PROJECTION_MISMATCH" snapshot_id
    ++ report_if (not (row.last_event_id == expected.last_event_id))
        "ENVIRONMENT_PROJECTION_LAST_EVENT_ID_MISMATCH" snapshot_id

-- What is said of error_type by an event of a capture that failed or did not.
unfoldable pub check_error_type :
    String → String → String → String → String → Fields → String → List String
check_error_type failed captured missing unexpected event_type content event_id =
    report_if (event_type == failed && not (is_some (get_str "error_type" content))) missing
      event_id
    ++ report_if (event_type == captured && is_given "error_type" content) unexpected event_id

-- `content` has the fields that `check_provenance_schema` asks for.
unfoldable pub is_provenance : Fields → Bool
is_provenance content = is_some (
    get_non_empty "snapshot_id" content >>= λ s. get_non_empty "intent_id" content >>= λ i.
    get_str "repo_path" content >>= λ r. get_str "status_porcelain" content >>= λ p.
    get_text "stderr" content >>= λ t. get_flag "is_dirty" content)

-- The same for `check_environment_schema`, with the installed packages.
unfoldable pub environment_packages : Fields → Option Items
environment_packages content = get_non_empty "snapshot_id" content >>= λ s.
    get_non_empty "intent_id" content >>= λ i. get_str "python_version" content >>= λ v.
    get_str "platform" content >>= λ p. get_str "executable" content >>= λ x.
    get_text "stderr" content >>= λ t. get "installed_packages" content >>= λ packages.
    elim packages [ list items ↦ some items | _ ↦ none ]

abbrev pub pair_precedes : String × String → String × String → Bool
pair_precedes (a, b) (c, d) = precedes a c || (a == c && precedes b d)

abbrev pub same_pairs : List (String × String) → List (String × String) → Bool
same_pairs [] [] = true
same_pairs ((a, b) ∷ xs) ((c, d) ∷ ys) = a == c && (b == d && same_pairs xs ys)
same_pairs xs ys = false
