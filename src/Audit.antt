-- ===== src/Audit.antt =====
-- leira/audit/auditor.py: what the checks of the auditor share. Each check is a function of the
-- rows of the ledger, and of a projection table where it compares one.
pub mod Events
pub mod Compare
pub mod Transitions
pub mod Runs
pub mod Intents
pub mod Workers
pub mod Claims
pub mod Snapshots
pub mod Whole
pub mod Sessions
pub mod Receipts
use leira.Prelude.{
  String, Bool, true, false, Option, none, some, List, [], ◌∷◌, ◌++◌, ◌<>◌, not, is_some, keep, map,
  sorted, each,
}
use leira.Value.{Fields, get_non_empty, as_dict, ◌>>=◌}
use leira.Platform.{Platform}
use leira.Table.{Table, lookup, upsert}
use leira.Ledger.{LedgerEvent}

-- `f"{code}:{identifier}"`
abbrev pub report : String → String → String
report code identifier = code <> ":" <> identifier

-- `if bad: errors.append(…)`
abbrev pub report_if : Bool → String → String → List String
report_if true code identifier = report code identifier ∷ []
report_if false code identifier = []

abbrev pub keys_of : {R : Type 0} → Table R → List String
keys_of t = map (λ e. e.0) t

-- What is reported of a key of the expected table, with the row expected there.
abbrev pub judge_key :
    {R S : Type 0}
    → (String → R → Option S → List String)
    → Table S
    → String
    → Option R
    → List String
judge_key judge actual k none = []
judge_key judge actual k (some r) = judge k r (lookup k actual)

-- The loop `for key in sorted(expected)` over an expected table, with what is reported of an
-- expected row and the row that stands under its key.
unfoldable pub compare_expected :
    {R S : Type 0} → (String → R → Option S → List String) → Table R → Table S → List String
compare_expected judge expected actual =
    each (λ k. judge_key judge actual k (lookup k expected)) (sorted (keys_of expected))

-- The loop `for key in sorted(set(actual) - set(expected))`.
unfoldable pub unexpected_entries : {R S : Type 0} → String → Table R → Table S → List String
unexpected_entries code expected actual =
    map (report code) (sorted (keep (λ k. not (is_some (lookup k expected))) (keys_of actual)))

module _ {Text : Type 0} (subject_of : LedgerEvent Text → Option String)
    (is_legal : Option String → String → Bool) where
  -- The loop that replays the events of each subject, a run or an intent, and reports those that
  -- must not follow the last event of their subject.
  unfoldable pub transitions_from : Table String → List (LedgerEvent Text) → List String
  transitions_from last_by_subject [] = []
  transitions_from last_by_subject (e ∷ es) = elim (subject_of e) [
    | none ↦ transitions_from last_by_subject es
    | some subject ↦
        report_if (not (is_legal (lookup subject last_by_subject) e.event_type))
          "ILLEGAL_TRANSITION" e.id
        ++ transitions_from (upsert subject e.event_type last_by_subject) es
  ]

module _ {Text : Type 0} (P : Platform Text) where
  -- `_parse_payload`
  unfoldable pub parse_payload : LedgerEvent Text → Option Fields
  parse_payload e = P.loads e.payload_json >>= as_dict

  -- `_event_run_id`
  unfoldable pub event_run_id : LedgerEvent Text → Option String
  event_run_id e = parse_payload e >>= get_non_empty "run_id"
