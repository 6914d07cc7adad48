-- ===== src/Provenance.antt =====
-- leira/provenance/git_provenance.py and leira/environment/environment.py: what is recorded of the
-- repository and of the runtime around an intent.
pub mod Capture
pub mod Kept
pub mod Read
use leira.Prelude.{
  ℕ, ◌+◌, String, Bool, true, false, Option, none, some, List, [], ◌∷◌, if◌then◌else◌,
}
use leira.Value.{Value, Items, Fields, null, bool, str, list, dict, nil, cons, entries, optional}
use leira.Errors.{ErrorType}
use leira.Rows.{ProvenanceRow, EnvironmentRow}
use leira.Receipts.{PackageInfo}

abbrev pub provenance_worker_id : String
provenance_worker_id = "kernel"

abbrev pub environment_worker_id : String
environment_worker_id = "kernel"

-- `GitStatusResult`, as far as it is read.
pub record GitStatusResult : Type 0 where
  pub success : Bool
  pub head_sha : Option String
  pub branch : Option String
  pub is_dirty : Option Bool
  pub status_porcelain : String
  pub stderr : String
  pub error_type : Option String

-- What `_capture_snapshot_values` reads of the runtime, or the text of the exception that it raises.
pub data Runtime : Type 0 where
  observed : (python_version platform executable : String) (packages : List PackageInfo) → Runtime
  unobservable : (message : String) → Runtime

-- What the two captures take from outside: git, the runtime, the length of a text in UTF-8, and the
-- messages of a failed append and of a payload that cannot be stored.
pub record Surroundings (Text : Type 0) : Type 0 where
  pub inspect_repo : String → GitStatusResult
  pub runtime : Runtime
  pub size : Text → ℕ
  pub append_message : ErrorType → String
  pub payload_message : String

-- `ProvenanceSnapshot`
pub record CapturedProvenance : Type 0 where
  pub snapshot_id : String
  pub intent_id : String
  pub repo_path : String
  pub head_sha : Option String
  pub branch : Option String
  pub is_dirty : Option Bool
  pub status_porcelain : String
  pub created_at : String
  pub error_type : Option String
  pub stderr : String

-- `EnvironmentSnapshot`
pub record CapturedEnvironment : Type 0 where
  pub snapshot_id : String
  pub intent_id : String
  pub python_version : String
  pub platform : String
  pub executable : String
  pub installed_packages : List PackageInfo
  pub created_at : String
  pub error_type : Option String
  pub stderr : String

abbrev pub flag : Option Bool → Value
flag none = null
flag (some b) = bool b

-- `_snapshot_payload` of provenance
abbrev pub provenance_payload : CapturedProvenance → Fields
provenance_payload s = entries (
    ("type", str "provenance")
    ∷ (
      "content",
      dict (
          entries (
            ("snapshot_id", str s.snapshot_id)
            ∷ ("intent_id", str s.intent_id)
            ∷ ("repo_path", str s.repo_path)
            ∷ ("head_sha", optional s.head_sha)
            ∷ ("branch", optional s.branch)
            ∷ ("is_dirty", flag s.is_dirty)
            ∷ ("status_porcelain", str s.status_porcelain)
            ∷ ("error_type", optional s.error_type)
            ∷ ("stderr", str s.stderr)
            ∷ [])),
    )
    ∷ [])

unfoldable pub package_items : List PackageInfo → Items
package_items [] = nil
package_items (p ∷ ps) =
    cons (dict (entries (("name", str p.name) ∷ ("version", str p.version) ∷ [])))
      (package_items ps)

-- `_snapshot_payload` of an environment
abbrev pub environment_payload : CapturedEnvironment → Fields
environment_payload s = entries (
    ("type", str "environment")
    ∷ (
      "content",
      dict (
          entries (
            ("snapshot_id", str s.snapshot_id)
            ∷ ("intent_id", str s.intent_id)
            ∷ ("python_version", str s.python_version)
            ∷ ("platform", str s.platform)
            ∷ ("executable", str s.executable)
            ∷ ("installed_packages", list (package_items s.installed_packages))
            ∷ ("error_type", optional s.error_type)
            ∷ ("stderr", str s.stderr)
            ∷ [])),
    )
    ∷ [])

-- The row of a snapshot, and the snapshot of a row.
abbrev pub provenance_row : CapturedProvenance → String → ProvenanceRow
provenance_row s event_id = record {
  intent_id = s.intent_id;
  repo_path = s.repo_path;
  head_sha = s.head_sha;
  branch = s.branch;
  is_dirty = s.is_dirty;
  status_porcelain = s.status_porcelain;
  created_at = s.created_at;
  error_type = s.error_type;
  stderr = s.stderr;
  last_event_id = event_id;
}

abbrev pub provenance_snapshot : String → ProvenanceRow → CapturedProvenance
provenance_snapshot snapshot_id row = record {
  snapshot_id = snapshot_id;
  intent_id = row.intent_id;
  repo_path = row.repo_path;
  head_sha = row.head_sha;
  branch = row.branch;
  is_dirty = row.is_dirty;
  status_porcelain = row.status_porcelain;
  created_at = row.created_at;
  error_type = row.error_type;
  stderr = row.stderr;
}

abbrev pub environment_row : CapturedEnvironment → String → EnvironmentRow
environment_row s event_id = record {
  intent_id = s.intent_id;
  python_version = s.python_version;
  platform = s.platform;
  executable = s.executable;
  created_at = s.created_at;
  error_type = s.error_type;
  last_event_id = event_id;
}

abbrev pub provenance_event_type : Bool → String
provenance_event_type true = "provenance_captured"
provenance_event_type false = "provenance_capture_failed"

-- The snapshot of a capture, with what the ledger says of its time.
abbrev pub captured : String → String → String → GitStatusResult → String → CapturedProvenance
captured snapshot_id intent_id repo_path r created_at = record {
  snapshot_id = snapshot_id;
  intent_id = intent_id;
  repo_path = repo_path;
  head_sha = r.head_sha;
  branch = r.branch;
  is_dirty = r.is_dirty;
  status_porcelain = r.status_porcelain;
  created_at = created_at;
  error_type = r.error_type;
  stderr = r.stderr;
}

-- The snapshot that is answered when the append failed.
abbrev pub uncaptured : String → String → String → GitStatusResult → String → CapturedProvenance
uncaptured snapshot_id intent_id repo_path r message = record {
  snapshot_id = snapshot_id;
  intent_id = intent_id;
  repo_path = repo_path;
  head_sha = (if r.success then r.head_sha else none);
  branch = (if r.success then r.branch else none);
  is_dirty = (if r.success then r.is_dirty else none);
  status_porcelain = (if r.success then r.status_porcelain else "");
  created_at = "";
  error_type = some "STORAGE_FAILURE";
  stderr = message;
}

-- `_failure_snapshot`
abbrev pub failure_snapshot : String → String → String → String → CapturedEnvironment
failure_snapshot snapshot_id intent_id error_type stderr = record {
  snapshot_id = snapshot_id;
  intent_id = intent_id;
  python_version = "";
  platform = "";
  executable = "";
  installed_packages = [];
  created_at = "";
  error_type = some error_type;
  stderr = stderr;
}
