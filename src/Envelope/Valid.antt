-- ===== src/Envelope/Valid.antt =====
-- When an envelope is valid.
use leira.Prelude.{
  ◌≡◌, refl, ◌∙◌, ap, String, true, false, ◌↔◌, Option, none, some, arith, inl, inr, Bool-cases,
  Option-cases,
}
use leira.Value.{
  Value, Items, Fields, null, bool, int, float, tuple, object, str, list, dict, get, as_dict,
  as_str,
}
use leira.Envelope.{
  required, not_none, as_list, all_strings, validate_criteria, validate_objective, validate_id,
  validate_operation,
}

-- A mapping with an operation mapping whose id and objective are strings and whose success
-- criteria are a list of strings.
abbrev pub IsEnvelope : Value → String → Type 0
IsEnvelope document operation_id =
    (fs : Fields) × (operation : Fields) × (objective : String) × (criteria : Items) × (document
      ≡ dict fs)
    × (get "operation" fs ≡ some (dict operation))
    × (get "id" operation ≡ some (str operation_id))
    × (get "objective" operation ≡ some (str objective))
    × (get "success_criteria" operation ≡ some (list criteria))
    × (all_strings criteria ≡ true)

not_none-some : (o : Option Value) (v : Value) → not_none o ≡ some v → o ≡ some v
not_none-some none v h = absurd (cc)
not_none-some (some null) v h = absurd (cc)
not_none-some (some (bool b)) v h = h
not_none-some (some (int n)) v h = h
not_none-some (some (float s)) v h = h
not_none-some (some (str s)) v h = h
not_none-some (some (list xs)) v h = h
not_none-some (some (tuple xs)) v h = h
not_none-some (some (dict fs)) v h = h
not_none-some (some (object s)) v h = h

required-get : (k : String) (fs : Fields) (v : Value) → required k fs ≡ some v → get k fs ≡ some v
unfolding required
required-get k fs v h = not_none-some (get k fs) v h

as_str-some : (v : Value) (s : String) → as_str v ≡ some s → v ≡ str s
as_str-some v s h = ground arith

as_dict-some : (v : Value) (fs : Fields) → as_dict v ≡ some fs → v ≡ dict fs
as_dict-some v fs h = ground arith

as_list-some : (v : Value) (xs : Items) → as_list v ≡ some xs → v ≡ list xs
as_list-some v xs h = ground arith

required-str : (k s : String) (fs : Fields) → get k fs ≡ some (str s) → required k fs ≡ some (str s)
unfolding required
required-str k s fs h = rw (h, required) refl

required-list :
    (k : String) (xs : Items) (fs : Fields)
    → get k fs ≡ some (list xs)
    → required k fs ≡ some (list xs)
unfolding required
required-list k xs fs h = rw (h, required) refl

required-dict :
    (k : String) (op fs : Fields) → get k fs ≡ some (dict op) → required k fs ≡ some (dict op)
unfolding required
required-dict k op fs h = rw (h, required) refl

-- A valid envelope is accepted with its id.
IsEnvelope-validate_operation :
    (document : Value) (operation_id : String)
    → IsEnvelope document operation_id
    → ((validate_operation document).success ≡ true)
      × ((validate_operation document).operation_id ≡ some operation_id)
unfolding validate_operation validate_id validate_objective validate_criteria
IsEnvelope-validate_operation document operation_id
      (fs, operation, objective, criteria, d, o, i, b, c, every) =
    rw (d) (
      rw (required-dict "operation" operation fs o, validate_operation)
        (rw (required-str "id" operation_id operation i, validate_id)
          (rw (required-str "objective" objective operation b, validate_objective)
            (rw (required-list "success_criteria" criteria operation c, validate_criteria)
              (rw (every) (refl, refl))))))

validate_criteria-success :
    (fs operation : Fields) (i : String)
    → (validate_criteria fs operation i).success ≡ true
    → (xs : Items) × (get "success_criteria" operation ≡ some (list xs)) × (all_strings xs ≡ true)
unfolding validate_criteria
validate_criteria-success fs operation i ok =
    elim (Option-cases (required "success_criteria" operation)) [
      | inl lost ↦ let never : false ≡ true = rw (lost, validate_criteria) at ok in absurd (cc)
      | inr (v, found) ↦ elim (Option-cases (as_list v)) [
        | inl other ↦
            let never : false ≡ true = rw (found, other, validate_criteria) at ok in absurd (cc)
        | inr (xs, listed) ↦ elim (Bool-cases (all_strings xs)) [
          | inr bad ↦
              let never : false ≡ true = rw (found, listed, bad, validate_criteria) at ok in
              absurd (cc)
          | inl fine ↦ (
            xs,
            required-get "success_criteria" operation v found ∙ ap some (as_list-some v xs listed),
            fine,
          )
        ]
      ]
    ]

validate_objective-success :
    (fs operation : Fields) (i : String)
    → (validate_objective fs operation i).success ≡ true
    → (s : String) × (get "objective" operation ≡ some (str s))
      × ((validate_criteria fs operation i).success ≡ true)
unfolding validate_objective
validate_objective-success fs operation i ok =
    elim (Option-cases (required "objective" operation)) [
      | inl lost ↦ let never : false ≡ true = rw (lost, validate_objective) at ok in absurd (cc)
      | inr (v, found) ↦ elim (Option-cases (as_str v)) [
        | inl other ↦
            let never : false ≡ true = rw (found, other, validate_objective) at ok in absurd (cc)
        | inr (s, text) ↦ (
          s,
          required-get "objective" operation v found ∙ ap some (as_str-some v s text),
          rw (found, text, validate_objective) at ok,
        )
      ]
    ]

validate_id-success :
    (fs operation : Fields)
    → (validate_id fs operation).success ≡ true
    → (i : String) × (get "id" operation ≡ some (str i))
      × ((validate_objective fs operation i).success ≡ true)
unfolding validate_id
validate_id-success fs operation ok = elim (Option-cases (required "id" operation)) [
  | inl lost ↦ let never : false ≡ true = rw (lost, validate_id) at ok in absurd (cc)
  | inr (v, found) ↦ elim (Option-cases (as_str v)) [
    | inl other ↦ let never : false ≡ true = rw (found, other, validate_id) at ok in absurd (cc)
    | inr (s, text) ↦ (
      s,
      required-get "id" operation v found ∙ ap some (as_str-some v s text),
      rw (found, text, validate_id) at ok,
    )
  ]
]

validate_operation-operation :
    (document : Value)
    → (validate_operation document).success ≡ true
    → (fs operation : Fields) × (document ≡ dict fs)
      × (get "operation" fs ≡ some (dict operation))
      × ((validate_id fs operation).success ≡ true)
unfolding validate_operation
validate_operation-operation document ok = elim (Option-cases (as_dict document)) [
  | inl other ↦ let never : false ≡ true = rw (other, validate_operation) at ok in absurd (cc)
  | inr (fs, mapping) ↦ elim (Option-cases (required "operation" fs)) [
    | inl lost ↦
        let never : false ≡ true = rw (mapping, lost, validate_operation) at ok in absurd (cc)
    | inr (v, found) ↦ elim (Option-cases (as_dict v)) [
      | inl other ↦
          let never : false ≡ true = rw (mapping, found, other, validate_operation) at ok in
          absurd (cc)
      | inr (operation, inner) ↦ (
        fs,
        operation,
        as_dict-some document fs mapping,
        required-get "operation" fs v found ∙ ap some (as_dict-some v operation inner),
        rw (mapping, found, inner, validate_operation) at ok,
      )
    ]
  ]
]

-- `validate_operation` accepts exactly the envelopes that have an `operation` mapping whose `id` and
-- `objective` are strings and whose `success_criteria` are a list of strings.
pub validate_operation-IsEnvelope :
    (document : Value)
    → ((validate_operation document).success ≡ true) ↔ ((i : String) × IsEnvelope document i)
validate_operation-IsEnvelope document =
    (read, λ (i, is). (IsEnvelope-validate_operation document i is).0)
  where
    read : (validate_operation document).success ≡ true → (i : String) × IsEnvelope document i
    read ok =
        let (fs, operation, d, o, ok1) = validate_operation-operation document ok in
        let (i, e, ok2) = validate_id-success fs operation ok1 in
        let (s, b, ok3) = validate_objective-success fs operation i ok2 in
        let (xs, c, every) = validate_criteria-success fs operation i ok3 in
        (i, (fs, operation, s, xs, d, o, e, b, c, every))
