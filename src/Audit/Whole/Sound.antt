-- ===== src/Audit/Whole/Sound.antt =====
-- What a successful audit says of the ledger and of the table of runs.
use leira.Prelude.{
  ◌≡◌, refl, ◌∙◌, ap, String, true, false, Option, none, some, List, [], ◌∷◌, ◌++◌, ◌==◌, eq_iff,
  not, keep, last, inl, inr, Bool-cases, empty-append, joined-AllSilent,
}
use leira.Platform.{Platform}
use leira.Table.{lookup}
use leira.Rows.{RunRow}
use leira.Ledger.{
  Db, LedgerEvent, ValidateChainResult, valid, chain_broken, hash_mismatch, validate_chain,
}
use leira.Projection.{row_of}
use leira.Projection.Rebuild.{owns, lookup-rebuild_from}
use leira.Lifecycle.Trace.{IsHistory}
use leira.Audit.{report_if}
use leira.Audit.Compare.{judged-compare_expected}
use leira.Audit.Runs.{
  judge_run, check_lifecycle_transitions, compute_expected_projection, check_projections,
}
use leira.Audit.Runs.History.{run_trace, check_lifecycle_transitions-IsHistory}
use leira.Audit.Runs.Rebuilt.{expected_runs_from-rebuild_from}
use leira.Audit.Intents.{check_intent_transitions}
use leira.Audit.Intents.History.{
  IsIntentHistory, intent_trace, check_intent_transitions-IsIntentHistory,
}
use leira.Audit.Whole.{
  is_empty, is_chain_valid, chain_errors, history_errors, projection_errors, audit_errors, audit,
}

is_empty-empty : (xs : List String) → is_empty xs ≡ true → xs ≡ []
is_empty-empty [] h = refl
is_empty-empty (x ∷ xs) h = absurd (cc)

chain_errors-valid : (r : ValidateChainResult) → chain_errors r ≡ [] → is_chain_valid r ≡ true
unfolding chain_errors
chain_errors-valid (valid n) h = refl
chain_errors-valid (chain_broken n i) h = absurd (cc)
chain_errors-valid (hash_mismatch n i) h = absurd (cc)

same_text : (s t : String) (code k : String) → report_if (not (s == t)) code k ≡ [] → s ≡ t
same_text s t code k quiet = elim (Bool-cases (s == t)) [
  | inl same ↦ (eq_iff s t).0 same
  | inr apart ↦ let no : report_if true code k ≡ [] = rw (apart) at quiet in absurd (cc)
]

-- A row that is judged well is the expected one.
judged_run : (k : String) (r : RunRow) (o : Option RunRow) → judge_run k r o ≡ [] → o ≡ some r
unfolding judge_run
judged_run k r none quiet = absurd (cc)
judged_run k r (some q) quiet =
    let r1 = report_if (not (q.current_state == r.current_state)) "PROJECTION_MISMATCH" k in
    let r2 =
      report_if (not (q.last_event_id == r.last_event_id)) "PROJECTION_LAST_EVENT_ID_MISMATCH" k in
    let r3 = report_if (not (q.updated_at == r.updated_at)) "PROJECTION_UPDATED_AT_MISMATCH" k in
    let (both, c) = empty-append (r1 ++ r2) r3 quiet in
    let (a, b) = empty-append r1 r2 both in
    let states = same_text q.current_state r.current_state _ _ a in
    let ids = same_text q.last_event_id r.last_event_id _ _ b in
    let times = same_text q.updated_at r.updated_at _ _ c in rw (states, ids, times) refl

module _ {Text : Type 0} (P : Platform Text) where
  -- The three checks that the theorem draws on.
  silent_checks :
      (db : Db Text)
      → (audit P db).success ≡ true
      → (chain_errors (validate_chain P db) ≡ [])
        × (check_lifecycle_transitions P db.events ≡ [])
        × (check_intent_transitions P db.events ≡ [])
        × (check_projections P db.run_states db.events ≡ [])
        × (projection_errors P db ≡ [])
  unfolding audit audit_errors history_errors projection_errors
  silent_checks db ok =
      let (before, tables) =
        empty-append (chain_errors (validate_chain P db) ++ history_errors P db.events)
          (projection_errors P db) (is_empty-empty (audit_errors P db) ok) in
      let (chain, history) =
        empty-append (chain_errors (validate_chain P db)) (history_errors P db.events) before in
      let (h1, (h2, (h3, (h4, (runs, (h6, (intents, others))))))) = joined-AllSilent _ history in
      let (states, more) = joined-AllSilent _ tables in (chain, runs, intents, states, tables)

  run_row :
      (run_id : String) (e : LedgerEvent Text) (db : Db Text)
      → check_projections P db.run_states db.events ≡ []
      → (run_id == "") ≡ false
      → last (keep (owns P run_id) db.events) ≡ some e
      → lookup run_id db.run_states ≡ some (row_of e)
  unfolding check_projections compute_expected_projection
  run_row run_id e db quiet full owned =
      let expected : lookup run_id (compute_expected_projection P db.events) ≡ some (row_of e) =
        expected_runs_from-rebuild_from P run_id [] [] db.events full refl
        ∙ lookup-rebuild_from P run_id [] db.events
        ∙ rw (owned) refl in
      judged_run run_id (row_of e) (lookup run_id db.run_states) (
        judged-compare_expected judge_run (compute_expected_projection P db.events) db.run_states
          run_id (row_of e) quiet expected)

  -- What the audit tells of a ledger and its tables when it reports success: the hash chain is valid
  -- and the projections are; the types of the lifecycle events of each run, in the order of the
  -- ledger, are a beginning of run_created, state_running, artifact_written, state_completed; those
  -- of the intent events of each intent are a life of an intent; and the table of runs has under each
  -- run_id that is not empty the row of the last lifecycle event that names it.
  pub audit-IsHistory :
      (db : Db Text)
      → (audit P db).success ≡ true
      → ((audit P db).chain_valid ≡ true)
        × ((audit P db).projections_valid ≡ true)
        × ((run_id : String) → IsHistory (run_trace P run_id db.events))
        × ((intent_id : String) → IsIntentHistory (intent_trace P intent_id db.events))
        × ((run_id : String) (e : LedgerEvent Text)
            → (run_id == "") ≡ false
            → last (keep (owns P run_id) db.events) ≡ some e
            → lookup run_id db.run_states ≡ some (row_of e))
  unfolding audit
  audit-IsHistory db ok =
      let (chain, runs, intents, states, tables) = silent_checks db ok in
      (
        chain_errors-valid (validate_chain P db) chain,
        ap is_empty tables,
        (check_lifecycle_transitions-IsHistory P db.events).0 runs,
        (check_intent_transitions-IsIntentHistory P db.events).0 intents,
        (λ run_id e full owned. run_row run_id e db states full owned),
      )
