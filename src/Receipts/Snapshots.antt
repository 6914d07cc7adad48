-- ===== src/Receipts/Snapshots.antt =====
-- What a receipt bundle reads off payloads: artifacts, provenance and environments, of
-- leira/receipts/receipts.py.
use leira.Prelude.{ℕ, String, Option, none, some, List, [], ◌∷◌}
use leira.Value.{
  Value, Items, Fields, null, str, list, tuple, dict, nil, cons, get, get_str, as_dict, ◌>>=◌,
}
use leira.Ledger.{LedgerEvent}

-- The fields of the three are what the payloads hold, without a test.
pub record ArtifactDescriptor : Type 0 where
  pub artifact_id : Value
  pub intent_id : Value
  pub relative_path : Value
  pub sha256 : Value
  pub size_bytes : Value
  pub created_at : String

pub record ProvenanceSnapshot : Type 0 where
  pub snapshot_id : Value
  pub intent_id : Value
  pub repo_path : Value
  pub head_sha : Value
  pub branch : Value
  pub is_dirty : Value
  pub status_porcelain : Value
  pub created_at : String
  pub error_type : Value
  pub stderr : Value

pub record PackageInfo : Type 0 where
  pub name : String
  pub version : String

pub record EnvironmentSnapshot : Type 0 where
  pub snapshot_id : Value
  pub intent_id : Value
  pub python_version : Value
  pub platform : Value
  pub executable : Value
  pub installed_packages : List PackageInfo
  pub created_at : String
  pub error_type : Value
  pub stderr : Value

pub record ReceiptBundle (Text : Type 0) : Type 0 where
  pub intent_id : String
  pub first_event_id : String
  pub last_event_id : String
  pub event_count : ℕ
  pub events : List (LedgerEvent Text)
  pub artifacts : List ArtifactDescriptor
  pub provenance : List ProvenanceSnapshot
  pub environment : List EnvironmentSnapshot

-- `d.get(k, v)`
unfoldable pub get_or : String → Value → Fields → Value
get_or k v fs = elim (get k fs) [ none ↦ v | some w ↦ w ]

-- What one loop reads of each event, as far as it reads something.
unfoldable pub gather {ℓ κ} : {A : Type ℓ} {B : Type κ} → (A → Option B) → List A → List B
gather f [] = []
gather f (x ∷ xs) = let rest = gather f xs in elim (f x) [ none ↦ rest | some y ↦ y ∷ rest ]

-- The elements that a loop over the value goes through, with `none` for a TypeError; a text or a
-- dict has no element that is a dict.
unfoldable pub elements : Value → Option Items
elements (list xs) = some xs
elements (tuple xs) = some xs
elements (str s) = some nil
elements (dict fs) = some nil
elements _ = none

unfoldable pub package_of : Value → Option PackageInfo
package_of v = as_dict v >>= λ item. get_str "name" item >>= λ n.
    get_str "version" item >>= λ version. some (record { name = n; version = version })

unfoldable pub packages_of : Items → List PackageInfo
packages_of nil = []
packages_of (cons v vs) =
    let rest = packages_of vs in elim (package_of v) [ none ↦ rest | some p ↦ p ∷ rest ]

-- `ArtifactDescriptor(…)`, with `none` for a KeyError.
unfoldable pub artifact_of : String → Fields → Option ArtifactDescriptor
artifact_of created_at content = get "artifact_id" content >>= λ artifact_id.
    get "intent_id" content >>= λ intent_id. get "relative_path" content >>= λ relative_path.
    get "sha256" content >>= λ sha256. get "size_bytes" content >>= λ size_bytes. some (record {
      artifact_id = artifact_id;
      intent_id = intent_id;
      relative_path = relative_path;
      sha256 = sha256;
      size_bytes = size_bytes;
      created_at = created_at;
    })

unfoldable pub provenance_of : String → Fields → Option ProvenanceSnapshot
provenance_of created_at content = get "snapshot_id" content >>= λ snapshot_id.
    get "intent_id" content >>= λ intent_id. get "repo_path" content >>= λ repo_path.
    get "status_porcelain" content >>= λ status_porcelain. some (record {
      snapshot_id = snapshot_id;
      intent_id = intent_id;
      repo_path = repo_path;
      head_sha = get_or "head_sha" null content;
      branch = get_or "branch" null content;
      is_dirty = get_or "is_dirty" null content;
      status_porcelain = status_porcelain;
      created_at = created_at;
      error_type = get_or "error_type" null content;
      stderr = get_or "stderr" (str "") content;
    })

unfoldable pub environment_of : String → List PackageInfo → Fields → Option EnvironmentSnapshot
environment_of created_at packages content = get "snapshot_id" content >>= λ snapshot_id.
    get "intent_id" content >>= λ intent_id. get "python_version" content >>= λ python_version.
    get "platform" content >>= λ platform. get "executable" content >>= λ executable. some (record {
      snapshot_id = snapshot_id;
      intent_id = intent_id;
      python_version = python_version;
      platform = platform;
      executable = executable;
      installed_packages = packages;
      created_at = created_at;
      error_type = get_or "error_type" null content;
      stderr = get_or "stderr" (str "") content;
    })
