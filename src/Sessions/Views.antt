-- ===== src/Sessions/Views.antt =====
-- What a session shows of other tables: `get_session_receipts`, `get_session_artifacts`,
-- `get_session_provenance` and `get_session_environment`.
use leira.Prelude.{
  String, Bool, ◌==◌, ◌&&◌, ◌||◌, Option, none, some, List, [], ◌∷◌, ◌++◌, keep, map, sort_by,
  precedes,
}
use leira.Value.{pos, int, str, ◌>>=◌}
use leira.Platform.{Platform}
use leira.Table.{Table}
use leira.Rows.{ArtifactRow, EnvironmentRow}
use leira.Ledger.{Db}
use leira.Receipts.{ArtifactDescriptor, EnvironmentSnapshot, ReceiptBundle, get_receipt_bundle}
use leira.Provenance.{CapturedProvenance, provenance_snapshot}
use leira.Provenance.Read.{get_environment}
use leira.Sessions.{list_session_intents}

-- `descriptor_from_projection_row`
abbrev pub descriptor_from_projection_row : String → ArtifactRow → ArtifactDescriptor
descriptor_from_projection_row artifact_id row = record {
  artifact_id = str artifact_id;
  intent_id = str row.intent_id;
  relative_path = str row.relative_path;
  sha256 = str row.sha256;
  size_bytes = int (pos row.size_bytes);
  created_at = row.created_at;
}

module _ {R : Type 0} (intent_id_of created_at_of : R → String) where
  -- ORDER BY created_at, key
  unfoldable pub older : String × R → String × R → Bool
  older a b =
      precedes (created_at_of a.1) (created_at_of b.1)
      || (created_at_of a.1 == created_at_of b.1 && precedes a.0 b.0)

  -- SELECT … WHERE intent_id = ? ORDER BY created_at, key
  unfoldable pub rows_of_intent : String → Table R → Table R
  rows_of_intent intent_id rows = sort_by older (keep (λ row. intent_id_of row.1 == intent_id) rows)

-- `extend`, once for each element.
unfoldable pub extend_each {ℓ κ} : {A : Type ℓ} {B : Type κ} → (A → List B) → List A → List B
extend_each f [] = []
extend_each f (x ∷ xs) = f x ++ extend_each f xs

module _ {Text : Type 0} where
  unfoldable pub get_session_artifacts : String → Db Text → List ArtifactDescriptor
  get_session_artifacts session_id db =
      extend_each
        (λ intent_id.
          map (λ row. descriptor_from_projection_row row.0 row.1)
            (rows_of_intent (λ row. row.intent_id) (λ row. row.created_at) intent_id
              db.artifact_rows))
        (list_session_intents session_id db.membership_rows)

  unfoldable pub get_session_provenance : String → Db Text → List CapturedProvenance
  get_session_provenance session_id db =
      extend_each
        (λ intent_id.
          map (λ row. provenance_snapshot row.0 row.1)
            (rows_of_intent (λ row. row.intent_id) (λ row. row.created_at) intent_id
              db.provenance_rows))
        (list_session_intents session_id db.membership_rows)

module _ {Text : Type 0} (P : Platform Text) where
  -- The inner loop of `get_session_environment`; `none` if a call raises.
  unfoldable pub environments_from :
      Table EnvironmentRow → Db Text → Option (List EnvironmentSnapshot)
  environments_from [] db = some []
  environments_from (row ∷ rows) db = get_environment P row.0 db >>= λ found.
      environments_from rows db >>= λ rest.
      some (elim found [ none ↦ rest | some snapshot ↦ snapshot ∷ rest ])

  unfoldable pub environments_of_intents : List String → Db Text → Option (List EnvironmentSnapshot)
  environments_of_intents [] db = some []
  environments_of_intents (intent_id ∷ intent_ids) db =
      environments_from
        (rows_of_intent (λ row. row.intent_id) (λ row. row.created_at) intent_id
          db.environment_rows)
        db
      >>= λ own. environments_of_intents intent_ids db >>= λ others. some (own ++ others)

  unfoldable pub get_session_environment : String → Db Text → Option (List EnvironmentSnapshot)
  get_session_environment session_id db =
      environments_of_intents (list_session_intents session_id db.membership_rows) db

  -- The bundles of these intents; `none` if a call raises.
  unfoldable pub receipts_of_intents :
      List String → Db Text → Option (List (ReceiptBundle Text)) × Db Text
  receipts_of_intents [] db = (some [], db)
  receipts_of_intents (intent_id ∷ intent_ids) db =
      let (made, db1) = get_receipt_bundle P intent_id db in
      let (others, db2) = receipts_of_intents intent_ids db1 in
      elim made [
        | none ↦ (none, db1)
        | some found ↦ (
          others >>= λ bundles.
              some (elim found [ none ↦ bundles | some bundle ↦ bundle ∷ bundles ]),
          db2,
        )
      ]

  unfoldable pub get_session_receipts :
      String → Db Text → Option (List (ReceiptBundle Text)) × Db Text
  get_session_receipts session_id db =
      receipts_of_intents (list_session_intents session_id db.membership_rows) db
