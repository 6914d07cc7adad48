-- ===== src/Audit/Claims/Rebuilt.antt =====
-- The rebuilt table of claims stands up to the audit.
use leira.Prelude.{
  ◌≡◌, refl, ◌∙◌, sym, ap, subst, String, false, none, some, List, [], ◌∷◌, ◌++◌, eq_refl, inl, inr,
  Option-cases,
}
use leira.Platform.{Platform}
use leira.Table.{Table, lookup, upsert}
use leira.Rows.{ClaimRow}
use leira.Ledger.{Db, LedgerEvent}
use leira.Claims.{ClaimEvent, replay_claim_events}
use leira.Claims.Rebuild.{
  events_under, claim_row_of, active_rows, claim_entry, events_by_intent, rebuild_claim_projection,
}
use leira.Claims.Grouping.{
  IsGrouped, Named, replay_from-Named, active_rows_gone, active_rows_left,
  events_by_intent-IsGrouped,
}
use leira.Audit.{parse_payload}
use leira.Audit.Compare.{compare_expected-silent, unexpected_entries-silent}
use leira.Audit.Claims.{
  expected_claims, judge_claim, audited_claim, group_claim_events_by_intent,
  compute_expected_claim_projection, check_claim_projection,
}

-- The rows that the auditor expects of distinct groups are the rows that the rebuild makes.
expected_claims-active_rows :
    (g : Table (List ClaimEvent)) → IsGrouped g → expected_claims g ≡ active_rows g
unfolding expected_claims active_rows replay_claim_events
expected_claims-active_rows [] grouped = refl
expected_claims-active_rows ((i, es) ∷ rest) (names, fresh, grouped) =
    let after = expected_claims-active_rows rest grouped in
    elim (Option-cases (replay_claim_events es)) [
      | inl gone ↦ rw (gone, expected_claims) (after ∙ sym (active_rows_gone i es rest gone))
      | inr (a, left) ↦
          let its : a.intent_id ≡ i =
            subst (λ r. Named i r) left (replay_from-Named i none es tt names) in
          rw (left, expected_claims)
            (ap (λ r. (i, claim_row_of a) ∷ r) after
              ∙ rw (sym its) (sym (active_rows_left i es rest a left)))
    ]

module _ {Text : Type 0} (P : Platform Text) where
  audited_claim-claim_entry : (e : LedgerEvent Text) → audited_claim P e ≡ claim_entry P e
  unfolding audited_claim claim_entry parse_payload
  audited_claim-claim_entry e = elim (Option-cases (P.loads e.payload_json)) [
    | inl broken ↦ rw (broken) refl
    | inr (v, read) ↦ rw (read) refl
  ]

  group-events_by_intent :
      (g : Table (List ClaimEvent)) (es : List (LedgerEvent Text))
      → group_claim_events_by_intent P g es ≡ events_by_intent P g es
  unfolding group_claim_events_by_intent events_by_intent
  group-events_by_intent g [] = refl
  group-events_by_intent g (e ∷ es) = elim (Option-cases (claim_entry P e)) [
    | inl other ↦
        rw (audited_claim-claim_entry e ∙ other, group_claim_events_by_intent)
          (rw (other, events_by_intent) (group-events_by_intent g es))
    | inr ((i, c), entry) ↦
        rw (audited_claim-claim_entry e ∙ entry, group_claim_events_by_intent)
          (rw (entry, events_by_intent)
            (group-events_by_intent (upsert i (events_under i g ++ c ∷ []) g) es))
  ]

  judge_claim-own : (k : String) (r : ClaimRow) → judge_claim k r (some r) ≡ []
  unfolding judge_claim
  judge_claim-own k r =
      rw (eq_refl r.claim_id, eq_refl r.owner_id, eq_refl r.claimed_at, eq_refl r.last_event_id)
        refl

  -- After `rebuild_claim_projection` the auditor finds nothing wrong with the table of claims,
  -- whatever the ledger holds: no expected row is missing or different, and no row is unexpected. It
  -- is assumed that the transaction does not fail.
  pub check_claim_projection-rebuild_claim_projection :
      (db : Db Text)
      → P.fails db.tick ≡ false
      → check_claim_projection P
          (rebuild_claim_projection P db).claim_rows
          (rebuild_claim_projection P db).events
        ≡ []
  unfolding check_claim_projection rebuild_claim_projection compute_expected_claim_projection lookup
  check_claim_projection-rebuild_claim_projection db works =
      let rows = active_rows (events_by_intent P [] db.events) in
      let same : expected_claims (group_claim_events_by_intent P [] db.events) ≡ rows =
        ap expected_claims (group-events_by_intent [] db.events)
        ∙ expected_claims-active_rows (events_by_intent P [] db.events)
            (events_by_intent-IsGrouped P [] db.events tt) in
      rw (works, rebuild_claim_projection)
        (rw (same) (
          rw
            (compare_expected-silent judge_claim rows rows
              (λ k r found. rw (found) (judge_claim-own k r)))
            (unexpected_entries-silent "CLAIM_PROJECTION_UNEXPECTED_ENTRY" rows rows
              (λ k found. found))))
