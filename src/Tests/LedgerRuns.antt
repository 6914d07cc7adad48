-- ===== src/Tests/LedgerRuns.antt =====
-- The theorems on the ledger, at small ledgers.
use leira.Prelude.{
  ◌≡◌, refl, ℕ, String, Bool, true, false, Option, none, [], ◌∷◌, map, length, inl, inr, ◌⊎◌,
  Bool-cases, ◌==◌, eq_iff,
}
use native.Mathlib.Decide.{ℕ_discrete}
use leira.Value.{Value, str, dict, entries, float}
use leira.Value.Safe.{is_safe, is_some-normalize_value}
use leira.Value.{normalize_value}
use leira.Prelude.{is_some}
use leira.Platform.{Platform}
use leira.Ledger.{
  Db, LedgerEvent, init, valid, append_event, validate_chain, check_from, genesis_parent_hash,
}
use leira.Ledger.Chain.{
  IsChained, Reports, validate_chain-append_event, append_event-IsChained, validate_chain-Reports,
  validate_chain-set_operation_id, set_operation_id,
}
use leira.Ledger.History.{SameContents, Collision, head_hash-determines}
use leira.Tests.Toy.{toy, is_plain, toy-IsStandard, decomposed}

abbrev pub never : ℕ → Bool
never n = false

abbrev pub calm : Platform Value
calm = toy never

abbrev empty : Db Value
empty = init Value

abbrev note : Value
note = dict (entries (("text", str decomposed) ∷ []))

-- A ledger with one row.
abbrev one_row : Db Value
one_row = (append_event calm (str "noted") (str "kernel") note none none empty).1

validate_chain-empty : validate_chain calm empty ≡ valid 0
unfolding validate_chain check_from
validate_chain-empty = refl

validate_chain-append_event_example : validate_chain calm one_row ≡ valid (length one_row.events)
validate_chain-append_event_example =
    validate_chain-append_event calm (str "noted") (str "kernel") note none none empty 0
      validate_chain-empty

validate_chain-Reports_example :
    Reports calm genesis_parent_hash 0 one_row.events (validate_chain calm one_row)
validate_chain-Reports_example = validate_chain-Reports calm one_row

abbrev forget : LedgerEvent Value → Option String
forget e = none

validate_chain-set_operation_id_example :
    validate_chain calm
      (record one_row { events = map (set_operation_id calm forget) one_row.events })
    ≡ validate_chain calm one_row
validate_chain-set_operation_id_example = validate_chain-set_operation_id calm forget one_row

String_discrete : Discrete String
String_discrete s t = elim (Bool-cases (s == t)) [
  | inl e ↦ yes ((eq_iff s t).0 e)
  | inr e ↦ no (λ h. let same : (s == t) ≡ true = (eq_iff s t).1 h in cc)
]

Value_discrete : Discrete Value
Value_discrete = hlevel (ℕ_discrete, String_discrete)

head_hash-determines_example :
    SameContents calm one_row.events one_row.events ⊎ Collision calm one_row.events one_row.events
head_hash-determines_example =
    head_hash-determines calm is_plain (toy-IsStandard never) Value_discrete one_row one_row refl
      chained chained refl refl
  where
    chained : IsChained calm genesis_parent_hash one_row.events
    chained = append_event-IsChained calm (str "noted") (str "kernel") note none none empty tt

is_some-normalize_value_example :
    is_some (normalize_value (λ s. s) (dict (entries (("x", float "0.5") ∷ []))))
    ≡ is_safe (dict (entries (("x", float "0.5") ∷ [])))
is_some-normalize_value_example =
    is_some-normalize_value (λ s. s) (dict (entries (("x", float "0.5") ∷ [])))
