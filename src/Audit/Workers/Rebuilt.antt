-- ===== src/Audit/Workers/Rebuilt.antt =====
-- The rebuilt table of workers stands up to the audit.
use leira.Prelude.{
  ◌≡◌, refl, ◌∙◌, sym, String, false, some, List, [], ◌∷◌, ◌==◌, eq_refl, is_some, contains, inl,
  inr, Bool-cases, Option-cases,
}
use leira.Platform.{Platform}
use leira.Table.{Table, lookup, upsert, lookup-upsert}
use leira.Rows.{WorkerRow}
use leira.Ledger.{Db, LedgerEvent}
use leira.Registry.{registered_name, rebuild_workers, rebuild_worker_projection}
use leira.Audit.{parse_payload}
use leira.Audit.Compare.{compare_expected-silent, unexpected_entries-silent}
use leira.Audit.Workers.{
  judge_worker, audited_name, expected_workers_from, compute_expected_worker_projection,
  check_worker_projection,
}

module _ {Text : Type 0} (P : Platform Text) where
  audited_name-registered_name : (e : LedgerEvent Text) → audited_name P e ≡ registered_name P e
  unfolding audited_name registered_name parse_payload
  audited_name-registered_name e = elim (Option-cases (P.loads e.payload_json)) [
    | inl broken ↦ rw (broken) refl
    | inr (v, read) ↦ rw (read) refl
  ]

  -- The names seen by the rebuild are the keys of its table.
  abbrev SeenAre : List String → Table WorkerRow → Type 0
  SeenAre seen rows = (k : String) → contains seen k ≡ is_some (lookup k rows)

  SeenAre-upsert :
      (seen : List String) (rows : Table WorkerRow) (k : String) (r : WorkerRow)
      → SeenAre seen rows
      → SeenAre (k ∷ seen) (upsert k r rows)
  SeenAre-upsert seen rows k r same j = elim (Bool-cases (k == j)) [
    | inl own ↦ rw (lookup-upsert k j r rows, own) refl
    | inr apart ↦ rw (lookup-upsert k j r rows, apart) (same j)
  ]

  expected_workers_from-rebuild_workers :
      (rows : Table WorkerRow) (seen : List String) (es : List (LedgerEvent Text))
      → SeenAre seen rows
      → expected_workers_from P rows es ≡ rebuild_workers P rows seen es
  unfolding expected_workers_from rebuild_workers
  expected_workers_from-rebuild_workers rows seen [] same = refl
  expected_workers_from-rebuild_workers rows seen (e ∷ es) same =
      elim (Option-cases (registered_name P e)) [
        | inl skipped ↦
            rw (audited_name-registered_name e ∙ skipped, expected_workers_from)
              (rw (skipped, rebuild_workers)
                (expected_workers_from-rebuild_workers rows seen es same))
        | inr (n, named) ↦
            rw (audited_name-registered_name e ∙ named, expected_workers_from)
              (rw (named, rebuild_workers)
                (elim (Bool-cases (contains seen n)) [
                  | inl old ↦
                      rw (sym (same n) ∙ old, expected_workers_from)
                        (rw (old, rebuild_workers)
                          (expected_workers_from-rebuild_workers rows seen es same))
                  | inr new ↦
                      rw (sym (same n) ∙ new, expected_workers_from)
                        (rw (new, rebuild_workers)
                          (expected_workers_from-rebuild_workers
                            (upsert n
                              (record { registered_at = e.created_at; last_event_id = e.id }) rows)
                            (n ∷ seen) es (SeenAre-upsert seen rows n _ same)))
                ]))
      ]

  judge_worker-own : (k : String) (r : WorkerRow) → judge_worker k r (some r) ≡ []
  unfolding judge_worker
  judge_worker-own k r = rw (eq_refl r.registered_at, eq_refl r.last_event_id) refl

  -- After `rebuild_worker_projection` the auditor finds nothing wrong with the table of workers,
  -- whatever the ledger holds: no expected row is missing or different, and no row is unexpected. It
  -- is assumed that the transaction does not fail.
  pub check_worker_projection-rebuild_worker_projection :
      (db : Db Text)
      → P.fails db.tick ≡ false
      → check_worker_projection P
          (rebuild_worker_projection P db).worker_rows
          (rebuild_worker_projection P db).events
        ≡ []
  unfolding check_worker_projection rebuild_worker_projection compute_expected_worker_projection
      lookup
  check_worker_projection-rebuild_worker_projection db works =
      let same : expected_workers_from P [] db.events ≡ rebuild_workers P [] [] db.events =
        expected_workers_from-rebuild_workers [] [] db.events (λ k. refl) in
      rw (works, rebuild_worker_projection)
        (rw (same) (
          rw
            (compare_expected-silent judge_worker (rebuild_workers P [] [] db.events)
              (rebuild_workers P [] [] db.events) (λ k r found. rw (found) (judge_worker-own k r)))
            (unexpected_entries-silent _ _ _ (λ k found. found))))
