-- ===== src/Audit/Runs/Rebuilt.antt =====
-- The rebuilt table of runs stands up to the audit.
use leira.Prelude.{
  ◌≡◌, refl, ◌∙◌, sym, String, false, Option, none, some, List, [], ◌∷◌, arith, ◌==◌, eq_iff,
  contains, if◌then◌else◌, inl, inr, Bool-cases, Option-cases,
}
use leira.Value.{Value, Fields, get, get_str, get_non_empty, as_str, as_non_empty, as_dict, ◌>>=◌}
use leira.Platform.{Platform}
use leira.Table.{Table, lookup, upsert, lookup-upsert, lookup-upsert_apart}
use leira.Rows.{RunRow}
use leira.Ledger.{LedgerEvent}
use leira.Projection.{run_lifecycle_event_types, payload_run_id, row_of, rebuild_step, rebuild_from}
use leira.Audit.{parse_payload, event_run_id}
use leira.Audit.Runs.{run_of, expected_runs_from}

abbrev non_empty : String → Option String
non_empty s = if s == "" then none else some s

as_non_empty-as_str : (v : Value) → as_non_empty v ≡ as_str v >>= non_empty
as_non_empty-as_str v = ground arith

get_non_empty-get_str : (k : String) (fs : Fields) → get_non_empty k fs ≡ get_str k fs >>= non_empty
unfolding get_non_empty get_str
get_non_empty-get_str k fs = elim (Option-cases (get k fs)) [
  | inl absent ↦ rw (absent) refl
  | inr (v, found) ↦ rw (found) (as_non_empty-as_str v)
]

module _ {Text : Type 0} (P : Platform Text) where
  event_run_id-payload_run_id :
      (e : LedgerEvent Text) → event_run_id P e ≡ payload_run_id P e >>= non_empty
  unfolding event_run_id payload_run_id parse_payload
  event_run_id-payload_run_id e = elim (Option-cases (P.loads e.payload_json)) [
    | inl broken ↦ rw (broken) refl
    | inr (v, read) ↦ elim (Option-cases (as_dict v)) [
      | inl other ↦ rw (read, other) refl
      | inr (fs, given) ↦ rw (read, given) (get_non_empty-get_str "run_id" fs)
    ]
  ]

  -- How a round of the rebuild looks to the audit.
  named_round :
      (e : LedgerEvent Text) (rows : Table RunRow) (run_id : String)
      → run_of P e ≡ some run_id
      → (rebuild_step P e rows ≡ upsert run_id (row_of e) rows) × ((run_id == "") ≡ false)
  unfolding run_of rebuild_step
  named_round e rows run_id named = ground (arith, event_run_id-payload_run_id e)

  unnamed_round :
      (e : LedgerEvent Text) (rows : Table RunRow) (k : String)
      → run_of P e ≡ none
      → (k == "") ≡ false
      → lookup k (rebuild_step P e rows) ≡ lookup k rows
  unfolding run_of rebuild_step
  unnamed_round e rows k unnamed full =
      elim (Bool-cases (contains run_lifecycle_event_types e.event_type)) [
        | inr other ↦ rw (other, rebuild_step) refl
        | inl of_run ↦ elim (Option-cases (payload_run_id P e)) [
          | inl absent ↦ rw (of_run, rebuild_step) (rw (absent, rebuild_step) refl)
          | inr (s, given) ↦
              let blank : s ≡ "" = ground (arith, event_run_id-payload_run_id e, eq_iff s "") in
              rw (of_run, rebuild_step)
                (rw (given, rebuild_step)
                  (lookup-upsert_apart s k (row_of e) rows
                    (ground (arith, eq_iff s k, eq_iff k ""))))
        ]
      ]

  expected_none :
      (expected : Table RunRow) (e : LedgerEvent Text) (es : List (LedgerEvent Text))
      → run_of P e ≡ none
      → expected_runs_from P expected (e ∷ es) ≡ expected_runs_from P expected es
  unfolding expected_runs_from
  expected_none expected e es unnamed = rw (unnamed, expected_runs_from) refl

  expected_some :
      (expected : Table RunRow) (e : LedgerEvent Text) (es : List (LedgerEvent Text))
      (run_id : String)
      → run_of P e ≡ some run_id
      → expected_runs_from P expected (e ∷ es)
        ≡ expected_runs_from P (upsert run_id (row_of e) expected) es
  unfolding expected_runs_from
  expected_some expected e es run_id named = rw (named, expected_runs_from) refl

  pub expected_runs_from-rebuild_from :
      (k : String) (expected rows : Table RunRow) (es : List (LedgerEvent Text))
      → (k == "") ≡ false
      → lookup k expected ≡ lookup k rows
      → lookup k (expected_runs_from P expected es) ≡ lookup k (rebuild_from P rows es)
  unfolding expected_runs_from rebuild_from
  expected_runs_from-rebuild_from k expected rows [] full same = same
  expected_runs_from-rebuild_from k expected rows (e ∷ es) full same =
      elim (Option-cases (run_of P e)) [
        | inl unnamed ↦ rw (expected_none expected e es unnamed) (
            expected_runs_from-rebuild_from k expected (rebuild_step P e rows) es full
              (same ∙ sym (unnamed_round e rows k unnamed full)))
        | inr (run_id, named) ↦
            rw (expected_some expected e es run_id named, (named_round e rows run_id named).0)
              (expected_runs_from-rebuild_from k (upsert run_id (row_of e) expected)
                (upsert run_id (row_of e) rows) es full
                (rw
                  (
                    lookup-upsert run_id k (row_of e) expected,
                    lookup-upsert run_id k (row_of e) rows,
                    same,
                  )
                  refl))
      ]
