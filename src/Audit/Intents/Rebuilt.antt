-- ===== src/Audit/Intents/Rebuilt.antt =====
-- The rebuilt table of intents stands up to the audit.
use leira.Prelude.{
  ◌≡◌, refl, ◌∙◌, sym, ap, String, false, Option, none, some, List, [], ◌∷◌, ◌++◌, eq_refl,
  contains, if◌then◌else◌, inl, inr, Bool-cases, Option-cases,
}
use leira.Value.{get_non_empty, as_dict}
use leira.Platform.{Platform}
use leira.Table.{Table, upsert}
use leira.Rows.{IntentRow}
use leira.Ledger.{Db, LedgerEvent}
use leira.Inbox.{
  intent_ledger_event_types, is_terminal, intent_row_of, intent_entry, rebuild_intents,
  rebuild_intent_projection,
}
use leira.Audit.{parse_payload}
use leira.Audit.Compare.{compare_expected-silent}
use leira.Audit.Intents.{
  differs, judge_intent, intent_payload, audited_intent, expected_intents_from,
  compute_expected_intents, check_submissions, check_intents,
}

module _ {Text : Type 0} (P : Platform Text) where
  audited_intent-intent_entry : (e : LedgerEvent Text) → audited_intent P e ≡ intent_entry P e
  unfolding audited_intent intent_payload intent_entry parse_payload
  audited_intent-intent_entry e =
      elim (Bool-cases (contains intent_ledger_event_types e.event_type)) [
        | inr other ↦ rw (other) refl
        | inl ours ↦ elim (Option-cases (P.loads e.payload_json)) [
          | inl broken ↦ rw (ours, broken) refl
          | inr (v, read) ↦ elim (Option-cases (as_dict v)) [
            | inl odd ↦ rw (ours, read, odd) refl
            | inr (fs, given) ↦ elim (Option-cases (get_non_empty "intent_id" fs)) [
              | inl unnamed ↦ rw (ours, read, given, unnamed) refl
              | inr (i, named) ↦ rw (ours, read, given, named) refl
            ]
          ]
        ]
      ]

  expected_intents_from-rebuild_intents :
      (rows : Table IntentRow) (ended : List String) (es : List (LedgerEvent Text))
      → expected_intents_from P rows ended es ≡ rebuild_intents P rows ended es
  unfolding expected_intents_from rebuild_intents
  expected_intents_from-rebuild_intents rows ended [] = refl
  expected_intents_from-rebuild_intents rows ended (e ∷ es) =
      elim (Option-cases (intent_entry P e)) [
        | inl skipped ↦
            rw (audited_intent-intent_entry e ∙ skipped, expected_intents_from)
              (rw (skipped, rebuild_intents) (expected_intents_from-rebuild_intents rows ended es))
        | inr ((i, s, w), read) ↦ elim (Bool-cases (contains ended i)) [
          | inl over ↦
              rw (audited_intent-intent_entry e ∙ read, expected_intents_from)
                (rw (read, rebuild_intents)
                  (rw (over, expected_intents_from, rebuild_intents)
                    (expected_intents_from-rebuild_intents rows ended es)))
          | inr goes_on ↦
              rw (audited_intent-intent_entry e ∙ read, expected_intents_from)
                (rw (read, rebuild_intents)
                  (rw (goes_on, expected_intents_from, rebuild_intents)
                    (expected_intents_from-rebuild_intents (upsert i (intent_row_of P s w e) rows)
                      (if is_terminal s then i ∷ ended else ended) es)))
        ]
      ]

  differs-own : (o : Option String) → differs o o ≡ false
  unfolding differs
  differs-own none = refl
  differs-own (some s) = rw (eq_refl s) refl

  judge_intent-own : (k : String) (r : IntentRow) → judge_intent k r (some r) ≡ []
  unfolding judge_intent
  judge_intent-own k r =
      rw
        (eq_refl r.status, differs-own r.worker_name, eq_refl r.last_event_id, eq_refl r.updated_at)
        refl

  -- After `rebuild_intent_projection` the auditor finds nothing wrong with intent_projection,
  -- whatever the ledger holds: `check_intents` reports only what it has to say of inbox_entries,
  -- which the rebuild leaves alone. It is assumed that the transaction does not fail.
  pub check_intents-rebuild_intent_projection :
      (db : Db Text)
      → P.fails db.tick ≡ false
      → (let rebuilt = rebuild_intent_projection P db in
          check_intents P rebuilt.inbox_entries rebuilt.intent_states rebuilt.events
          ≡ check_submissions P db.inbox_entries db.events ++ [])
  unfolding check_intents rebuild_intent_projection compute_expected_intents
  check_intents-rebuild_intent_projection db works =
      rw (works, rebuild_intent_projection)
        (ap (λ r. check_submissions P db.inbox_entries db.events ++ r)
          (compare_expected-silent judge_intent _ _ (λ k r found.
            rw (sym (expected_intents_from-rebuild_intents [] [] db.events), found)
              (judge_intent-own k r))))
