-- ===== src/Lifecycle/History.antt =====
-- What a call of `append_lifecycle_event` does to the history that the ledger shows for a run.
use leira.Prelude.{
  ◌≡◌, inl, inr, String, Bool, true, false, Option, some, List, [], ◌∷◌, ◌++◌, map, arith, last,
  keep-snoc, map-snoc, if◌then◌else◌, Bool-cases, Option-cases,
}
use leira.Value.{Fields}
use leira.Platform.{Platform}
use leira.Ledger.{Db, LedgerEvent}
use leira.Lifecycle.{allowed_transitions, run_events, get_run_state, append_lifecycle_event}
use leira.Lifecycle.Trace.{
  IsHistory, IsHistory-snoc, advanced, stayed, append_lifecycle_event-Advances,
}

-- The types of the rows that the ledger shows for a run.
abbrev pub trace : {Text : Type 0} → Platform Text → String → List (LedgerEvent Text) → List String
trace P run_id es = map (λ e. e.event_type) (run_events P run_id es)

module _ {Text : Type 0} (P : Platform Text) where
  pub run_events-snoc :
      (run_id : String) (es : List (LedgerEvent Text)) (e : LedgerEvent Text)
      → run_events P run_id (es ++ e ∷ []) ≡ (
          if P.mentions "run_id" run_id e.payload_json
          then run_events P run_id es ++ e ∷ []
          else run_events P run_id es)
  unfolding run_events
  run_events-snoc run_id es e = keep-snoc (λ x. P.mentions "run_id" run_id x.payload_json) es e

  last-map :
      (es : List (LedgerEvent Text)) (e : LedgerEvent Text)
      → last es ≡ some e
      → last (map (λ x. x.event_type) es) ≡ some e.event_type
  last-map [] e h = cc
  last-map (x ∷ []) e h = ground arith
  last-map (x ∷ y ∷ es) e h = last-map (y ∷ es) e h

  -- The state that `get_run_state` reads is the last of the trace.
  last-trace :
      (run_id : String) (db : Db Text) (s : String)
      → (get_run_state P run_id db).current_state ≡ some s
      → last (trace P run_id db.events) ≡ some s
  unfolding get_run_state
  last-trace run_id db s h = elim (Option-cases (last (run_events P run_id db.events))) [
    | inl lost ↦ ground arith
    | inr (e, found) ↦ ground (arith, last-map (run_events P run_id db.events) e found)
  ]

  trace-found :
      (run_id : String) (es : List (LedgerEvent Text)) (e : LedgerEvent Text)
      → P.mentions "run_id" run_id e.payload_json ≡ true
      → trace P run_id (es ++ e ∷ []) ≡ trace P run_id es ++ e.event_type ∷ []
  trace-found run_id es e found =
      rw run_events-snoc (rw found (map-snoc (λ x. x.event_type) (run_events P run_id es) e))

  trace-missed :
      (run_id : String) (es : List (LedgerEvent Text)) (e : LedgerEvent Text)
      → P.mentions "run_id" run_id e.payload_json ≡ false
      → trace P run_id (es ++ e ∷ []) ≡ trace P run_id es
  trace-missed run_id es e missed = rw run_events-snoc (rw missed)

  -- Whatever is asked for, `append_lifecycle_event` on a run keeps the rows that the ledger shows
  -- for it a beginning of the one full history.
  pub append_lifecycle_event-IsHistory :
      (tracks : Bool) (run_id event_type : String) (extra : Option Fields) (db : Db Text)
      → IsHistory (trace P run_id db.events)
      → IsHistory
          (trace P run_id (append_lifecycle_event P tracks run_id event_type extra db).1.events)
  append_lifecycle_event-IsHistory tracks run_id event_type extra db h =
      elim (append_lifecycle_event-Advances P tracks run_id event_type extra db) [
        | stayed same failed n state ↦ rw same h
        | advanced s e at allowed ok typed stored grown won now state ↦
            rw grown (elim (Bool-cases (P.mentions "run_id" run_id e.payload_json)) [
              | inr missed ↦ rw (trace-missed run_id db.events e missed) h
              | inl found ↦
                  rw (trace-found run_id db.events e found, typed)
                    (IsHistory-snoc (trace P run_id db.events) s event_type h
                      (last-trace run_id db s at) allowed)
            ])
      ]

  -- A completed run is closed for good: every further event is refused and no row is added.
  pub append_lifecycle_event-completed :
      (tracks : Bool) (run_id event_type : String) (extra : Option Fields) (db : Db Text)
      → (get_run_state P run_id db).current_state ≡ some "state_completed"
      → (let r = append_lifecycle_event P tracks run_id event_type extra db in
          (r.0.success ≡ false) × (r.1.events ≡ db.events))
  unfolding allowed_transitions
  append_lifecycle_event-completed tracks run_id event_type extra db done =
      elim (append_lifecycle_event-Advances P tracks run_id event_type extra db) [
        | stayed same failed n state ↦ (failed, same)
        | advanced s e at allowed ok typed stored grown won now state ↦
            let es : s ≡ "state_completed" = cc (at, done) in
            let never : false ≡ true = rw es at allowed in cc
      ]
