-- ===== src/Dispatch/Outcome.antt =====
-- The outcome of `dispatch_once` and of the two ways to call it.
use leira.Prelude.{
  ap, ◌≡◌, refl, ◌∙◌, String, Bool, true, false, Option, none, some, List, [], ◌∷◌, ◌++◌, ◌==◌,
  eq_iff, inl, inr, Bool-cases, Option-cases, ◌≢◌, ◌⊎◌,
}
use leira.Value.{Fields, dict, as_non_empty}
use leira.Platform.{Platform, IsStandard}
use leira.Errors.{invalid_status, unknown_intent}
use leira.Ledger.{Db, LedgerEvent}
use leira.Inbox.{get_intent_status}
use leira.Inbox.Status.{get_intent_status-append_terminal}
use leira.Workers.{Worker, invoke_worker}
use leira.Dispatch.{
  DispatchResult, not_dispatched, final_status, read_intent_payload, dispatch_once, dispatch_claim,
}
use leira.Dispatch.Once.{Ends, uninvoked, unrecorded, finished, dispatch_claim-Ends, final_ended}

module _ {Text : Type 0} (P : Platform Text) where
  -- An intent in another status than PENDING, or an unknown one, is not dispatched: the answer is
  -- INVALID_STATUS with that status, or UNKNOWN_INTENT, no worker is called and nothing is stored.
  pub dispatch_once-not_pending :
      (tracks : Bool) (intent_id : String) (worker : Worker) (db : Db Text)
      → get_intent_status P intent_id db ≢ some "PENDING"
      → dispatch_once P tracks intent_id worker db ≡ (
        elim (get_intent_status P intent_id db) [
          | none ↦ not_dispatched intent_id none none unknown_intent
          | some status ↦ not_dispatched intent_id none (some status) invalid_status
        ],
        db,
      )
  unfolding dispatch_once
  dispatch_once-not_pending tracks intent_id worker db other =
      elim (Option-cases (get_intent_status P intent_id db)) [
        | inl unknown ↦ rw (unknown, dispatch_once) refl
        | inr (status, known) ↦ elim (Bool-cases (status == "PENDING")) [
          | inl pending ↦ absurd (other (known ∙ ap some ((eq_iff status "PENDING").0 pending)))
          | inr differs ↦ rw (known, dispatch_once) (rw (differs, dispatch_once) refl)
        ]
      ]

  -- What `dispatch_once` is on a pending intent, with its payload and the worker's name.
  dispatch_once-pending :
      (tracks : Bool) (intent_id : String) (worker : Worker) (db : Db Text)
      → get_intent_status P intent_id db ≡ some "PENDING"
      → ((dispatch_once P tracks intent_id worker db).0.success ≡ false)
          × ((dispatch_once P tracks intent_id worker db).1 ≡ db)
        ⊎ ((payload : Fields) × (name : String) × (read_intent_payload P intent_id db
              ≡ some payload)
            × (dispatch_once P tracks intent_id worker db
                ≡ dispatch_claim P tracks intent_id name worker payload db))
  unfolding dispatch_once
  dispatch_once-pending tracks intent_id worker db pending =
      elim (Option-cases (read_intent_payload P intent_id db)) [
        | inl lost ↦ inl (rw (pending, dispatch_once) (rw (lost, dispatch_once) (refl, refl)))
        | inr (payload, read) ↦ elim (Option-cases (as_non_empty worker.name)) [
          | inl nameless ↦ inl (
              rw (pending, dispatch_once)
                (rw (read, dispatch_once) (rw (nameless, dispatch_once) (refl, refl))))
          | inr (name, named) ↦ inr (
            payload,
            name,
            read,
            rw (pending, dispatch_once) (rw (read, dispatch_once) (rw (named, dispatch_once) refl)),
          )
        ]
      ]

pending_or_not : (status : Option String) → (status ≡ some "PENDING") ⊎ (status ≢ some "PENDING")
pending_or_not none = inr (λ h. cc)
pending_or_not (some s) = elim (Bool-cases (s == "PENDING")) [
  | inl e ↦ inl (ap some ((eq_iff s "PENDING").0 e))
  | inr e ↦
      inr (λ h. let same : s ≡ "PENDING" = cc in let never : true ≡ false = rw same at e in cc)
]

final_status-ne-pending : (b : Bool) → some (final_status b) ≢ some "PENDING"
final_status-ne-pending true h = cc
final_status-ne-pending false h = cc

refusal_fails :
    (intent_id : String) (status : Option String)
    → DispatchResult.success (elim status [
      | none ↦ not_dispatched intent_id none none unknown_intent
      | some s ↦ not_dispatched intent_id none (some s) invalid_status
    ])
      ≡ false
refusal_fails intent_id none = refl
refusal_fails intent_id (some s) = refl

module _ {Text : Type 0} (P : Platform Text) (is_plain : String → Bool)
    (std : IsStandard P is_plain) where
  dispatch_once-Ends :
      (tracks : Bool) (intent_id : String) (worker : Worker) (db : Db Text)
      → is_plain intent_id ≡ true
      → (let r = dispatch_once P tracks intent_id worker db in
          ((r.0.success ≡ false) × (r.1.calls ≡ db.calls))
          ⊎ ((payload : Fields) × (read_intent_payload P intent_id db ≡ some payload)
              × Ends P intent_id worker payload db r))
  dispatch_once-Ends tracks intent_id worker db plain =
      elim (pending_or_not (get_intent_status P intent_id db)) [
        | inr other ↦
            let at_once = dispatch_once-not_pending P tracks intent_id worker db other in
            inl (rw at_once (refusal_fails intent_id (get_intent_status P intent_id db), refl))
        | inl pending ↦ elim (dispatch_once-pending P tracks intent_id worker db pending) [
          | inl (failed, same) ↦ inl (failed, ap (λ d. d.calls) same)
          | inr (payload, name, read, goes_on) ↦ inr (
            payload,
            read,
            rw goes_on (
                dispatch_claim-Ends P is_plain std intent_id plain tracks name worker payload db
                  pending),
          )
        ]
      ]

  -- A dispatch of an intent with a plain id calls the worker at most once, and only with the payload
  -- that `_read_intent_payload` reads from the ledger.
  -- The platform is assumed to behave as documented.
  pub dispatch_once_calls :
      (tracks : Bool) (intent_id : String) (worker : Worker) (db : Db Text)
      → is_plain intent_id ≡ true
      → ((dispatch_once P tracks intent_id worker db).1.calls ≡ db.calls)
        ⊎ ((payload : Fields) × (read_intent_payload P intent_id db ≡ some payload)
            × ((dispatch_once P tracks intent_id worker db).1.calls
                ≡ db.calls ++ dict payload ∷ []))
  dispatch_once_calls tracks intent_id worker db plain =
      elim (dispatch_once-Ends tracks intent_id worker db plain) [
        | inl (failed, same) ↦ inl same
        | inr (payload, read, uninvoked failed same) ↦ inl same
        | inr (payload, read, unrecorded failed called) ↦ inr (payload, read, called)
        | inr (payload, read, finished told called status) ↦ inr (payload, read, called)
      ]

  -- When `dispatch_once` reports success for an intent with a plain id, the worker was called, once
  -- and with the payload that `_read_intent_payload` reads from the ledger, and the ledger gives the
  -- intent the status that is reported: COMPLETED if the invocation's result is a success, FAILED if
  -- not.
  -- The platform is assumed to behave as documented.
  pub dispatch_once_success :
      (tracks : Bool) (intent_id : String) (worker : Worker) (db : Db Text)
      → is_plain intent_id ≡ true
      → (dispatch_once P tracks intent_id worker db).0.success ≡ true
      → (let r = dispatch_once P tracks intent_id worker db in
          (payload : Fields) × (read_intent_payload P intent_id db ≡ some payload)
          × (let status = final_status (invoke_worker worker payload).success in
              (r.1.calls ≡ db.calls ++ dict payload ∷ [])
              × (r.0.status ≡ some status)
              × (get_intent_status P intent_id r.1 ≡ some status)))
  dispatch_once_success tracks intent_id worker db plain ok =
      elim (dispatch_once-Ends tracks intent_id worker db plain) [
        | inl (failed, same) ↦ absurd (cc)
        | inr (payload, read, uninvoked failed same) ↦ absurd (cc)
        | inr (payload, read, unrecorded failed called) ↦ absurd (cc)
        | inr (payload, read, finished told called status) ↦ (payload, read, (called, told, status))
      ]

  -- No double execution: once a dispatch of an intent with a plain id has reported success, a later
  -- dispatch of it, by any worker and whatever rows were added to the ledger since, answers
  -- INVALID_STATUS and leaves everything as it is.
  -- The platform is assumed to behave as documented.
  pub dispatch_once_once :
      (tracks : Bool) (intent_id : String) (worker other : Worker) (db later : Db Text)
      (more : List (LedgerEvent Text))
      → is_plain intent_id ≡ true
      → (dispatch_once P tracks intent_id worker db).0.success ≡ true
      → later.events ≡ (dispatch_once P tracks intent_id worker db).1.events ++ more
      → (let again = dispatch_once P tracks intent_id other later in
          (again.0.success ≡ false)
          × (again.0.error_type ≡ some invalid_status)
          × (again.1 ≡ later))
  dispatch_once_once tracks intent_id worker other db later more plain ok grown =
      let (payload, read, (called, told, status)) =
        dispatch_once_success tracks intent_id worker db plain ok in
      let b = (invoke_worker worker payload).success in
      let ended =
        get_intent_status-append_terminal P intent_id _ later more (final_status b) status
          (final_ended b) grown in
      let refused =
        dispatch_once-not_pending P tracks intent_id other later
          (λ h. final_status-ne-pending b (cc)) in
      rw (refused, ended) (refl, refl, refl)
