-- ===== src/Receipts/Export.antt =====
-- `export_receipt_bundle`: a bundle as plain values.
use leira.Prelude.{String, true, false, Option, none, some, List, [], ◌∷◌}
use leira.Value.{
  pos, Value, Items, null, bool, int, str, list, dict, nil, cons, entries, optional, ◌>>=◌,
}
use leira.Platform.{Platform}
use leira.Ledger.{Db, LedgerEvent}
use leira.Receipts.{
  ArtifactDescriptor, ProvenanceSnapshot, PackageInfo, EnvironmentSnapshot, ReceiptBundle,
  get_receipt_bundle,
}

unfoldable pub items_of {ℓ} : {A : Type ℓ} → (A → Value) → List A → Items
items_of f [] = nil
items_of f (x ∷ xs) = cons (f x) (items_of f xs)

-- `asdict`, for each of the records.
abbrev pub artifact_dict : ArtifactDescriptor → Value
artifact_dict a = dict (
    entries (
      ("artifact_id", a.artifact_id)
      ∷ ("intent_id", a.intent_id)
      ∷ ("relative_path", a.relative_path)
      ∷ ("sha256", a.sha256)
      ∷ ("size_bytes", a.size_bytes)
      ∷ ("created_at", str a.created_at)
      ∷ []))

abbrev pub provenance_dict : ProvenanceSnapshot → Value
provenance_dict s = dict (
    entries (
      ("snapshot_id", s.snapshot_id)
      ∷ ("intent_id", s.intent_id)
      ∷ ("repo_path", s.repo_path)
      ∷ ("head_sha", s.head_sha)
      ∷ ("branch", s.branch)
      ∷ ("is_dirty", s.is_dirty)
      ∷ ("status_porcelain", s.status_porcelain)
      ∷ ("created_at", str s.created_at)
      ∷ ("error_type", s.error_type)
      ∷ ("stderr", s.stderr)
      ∷ []))

abbrev pub package_dict : PackageInfo → Value
package_dict p = dict (entries (("name", str p.name) ∷ ("version", str p.version) ∷ []))

abbrev pub environment_dict : EnvironmentSnapshot → Value
environment_dict s = dict (
    entries (
      ("snapshot_id", s.snapshot_id)
      ∷ ("intent_id", s.intent_id)
      ∷ ("python_version", s.python_version)
      ∷ ("platform", s.platform)
      ∷ ("executable", s.executable)
      ∷ ("installed_packages", list (items_of package_dict s.installed_packages))
      ∷ ("created_at", str s.created_at)
      ∷ ("error_type", s.error_type)
      ∷ ("stderr", s.stderr)
      ∷ []))

-- What is exported for an intent without events.
abbrev pub no_receipt : String → Value
no_receipt intent_id = dict (
    entries (
      ("intent_id", str intent_id)
      ∷ ("found", bool false)
      ∷ ("first_event_id", null)
      ∷ ("last_event_id", null)
      ∷ ("event_count", int (pos 0))
      ∷ ("events", list nil)
      ∷ ("artifacts", list nil)
      ∷ ("provenance", list nil)
      ∷ ("environment", list nil)
      ∷ []))

module _ {Text : Type 0} (P : Platform Text) where
  abbrev pub event_dict : LedgerEvent Text → Value
  event_dict e = dict (
      entries (
        ("id", str e.id)
        ∷ ("operation_id", optional e.operation_id)
        ∷ ("parent_event_hash", str e.parent_event_hash)
        ∷ ("event_type", str e.event_type)
        ∷ ("worker_id", str e.worker_id)
        ∷ ("payload_json", str (P.text e.payload_json))
        ∷ ("artifact_hash", optional e.artifact_hash)
        ∷ ("event_hash", str e.event_hash)
        ∷ ("created_at", str e.created_at)
        ∷ []))

  abbrev pub receipt_dict : ReceiptBundle Text → Value
  receipt_dict b = dict (
      entries (
        ("intent_id", str b.intent_id)
        ∷ ("found", bool true)
        ∷ ("first_event_id", str b.first_event_id)
        ∷ ("last_event_id", str b.last_event_id)
        ∷ ("event_count", int (pos b.event_count))
        ∷ ("events", list (items_of event_dict b.events))
        ∷ ("artifacts", list (items_of artifact_dict b.artifacts))
        ∷ ("provenance", list (items_of provenance_dict b.provenance))
        ∷ ("environment", list (items_of environment_dict b.environment))
        ∷ []))

  -- `none` if `get_receipt_bundle` raises.
  unfoldable pub export_receipt_bundle : String → Db Text → Option Value × Db Text
  export_receipt_bundle intent_id db =
      let (made, db') = get_receipt_bundle P intent_id db in
      (
        made >>= λ found.
            some (elim found [ none ↦ no_receipt intent_id | some bundle ↦ receipt_dict bundle ]),
        db',
      )
