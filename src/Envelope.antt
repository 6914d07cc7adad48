-- ===== src/Envelope.antt =====
-- leira/dispatcher/envelope.py: the structural test of an operation envelope.
pub mod Valid
use leira.Prelude.{String, Bool, true, false, ◌&&◌, Option, none, some, if◌then◌else◌, is_some}
use leira.Value.{Value, Items, nil, cons, Fields, null, list, get, as_dict, as_str}

pub data EnvelopeError : Type 0 where
  malformed_envelope missing_operation missing_id invalid_id missing_objective invalid_objective :
      EnvelopeError
  missing_success_criteria invalid_success_criteria : EnvelopeError

-- `ContractResult`, without the message for people.
pub record ContractResult : Type 0 where
  pub success : Bool
  pub error_type : Option EnvelopeError
  pub operation_id : Option String
  pub operation : Option Fields

abbrev pub malformed : EnvelopeError → Option String → ContractResult
malformed x operation_id = record {
  success = false;
  error_type = some x;
  operation_id = operation_id;
  operation = none;
}

-- `is None` for a value that may be missing
abbrev pub not_none : Option Value → Option Value
not_none none = none
not_none (some null) = none
not_none (some v) = some v

-- `d.get(k)`, tested with `is None`
unfoldable pub required : String → Fields → Option Value
unfolding get
required k fs = not_none (get k fs)

-- `isinstance(v, list)`
abbrev pub as_list : Value → Option Items
as_list (list xs) = some xs
as_list _ = none

-- `all(isinstance(item, str) for item in xs)`
abbrev pub all_strings : Items → Bool
all_strings nil = true
all_strings (cons x xs) = is_some (as_str x) && all_strings xs

-- `validate_operation` from `success_criteria` on.
unfoldable pub validate_criteria : Fields → Fields → String → ContractResult
validate_criteria document operation operation_id = elim (required "success_criteria" operation) [
  | none ↦ malformed missing_success_criteria (some operation_id)
  | some v ↦ elim (as_list v) [
    | none ↦ malformed invalid_success_criteria (some operation_id)
    | some xs ↦
        if all_strings xs
        then record {
          success = true;
          error_type = none;
          operation_id = some operation_id;
          operation = some document;
        }
        else malformed invalid_success_criteria (some operation_id)
  ]
]

-- `validate_operation` from `objective` on.
unfoldable pub validate_objective : Fields → Fields → String → ContractResult
validate_objective document operation operation_id = elim (required "objective" operation) [
  | none ↦ malformed missing_objective (some operation_id)
  | some v ↦ elim (as_str v) [
    | none ↦ malformed invalid_objective (some operation_id)
    | some objective ↦ validate_criteria document operation operation_id
  ]
]

-- `validate_operation` from `id` on.
unfoldable pub validate_id : Fields → Fields → ContractResult
validate_id document operation = elim (required "id" operation) [
  | none ↦ malformed missing_id none
  | some v ↦ elim (as_str v) [
    | none ↦ malformed invalid_id none
    | some operation_id ↦ validate_objective document operation operation_id
  ]
]

unfoldable pub validate_operation : Value → ContractResult
validate_operation document = elim (as_dict document) [
  | none ↦ malformed malformed_envelope none
  | some fs ↦ elim (required "operation" fs) [
    | none ↦ malformed missing_operation none
    | some v ↦ elim (as_dict v) [
      | none ↦ malformed missing_operation none
      | some operation ↦ validate_id fs operation
    ]
  ]
]
