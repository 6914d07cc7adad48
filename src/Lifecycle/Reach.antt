-- ===== src/Lifecycle/Reach.antt =====
-- Runs from their creation on: the state that is read back, and all histories that calls can make.
use leira.Prelude.{
  ℕ, ◌≡◌, refl, ◌∙◌, String, Bool, true, false, Option, none, some, List, [], ◌∷◌, ◌++◌, arith,
  ◌==◌, last, last-snoc, keep-append, Bool-cases, ap, inl, inr, ◌+◌, eq_iff,
}
use leira.Value.{Fields, str, dict, put, entries}
use leira.Value.Normal.{value_under}
use leira.Platform.{Platform, IsStandard}
use leira.Ledger.{Db, LedgerEvent, canonicalize_payload, new_event}
use leira.Ledger.Append.{wrote, kept, append_event-Appends}
use leira.Ledger.Payload.{mentions-stored, value_under-known}
use leira.Lifecycle.{
  LifecycleResult, at_state, extra_fields, run_events, get_run_state, append_lifecycle_event,
  create_run, lifecycle_worker_id, update_projection,
}
use leira.Lifecycle.Trace.{
  IsHistory, unseen, created, advanced, stayed, append_lifecycle_event-Advances,
  events-update_projection,
}
use leira.Lifecycle.History.{trace, run_events-snoc, append_lifecycle_event-IsHistory}

append_none : {A : Type 0} (xs : List A) → xs ++ [] ≡ xs
append_none [] = refl
append_none (x ∷ xs) = ap (λ r. x ∷ r) (append_none xs)

-- The payload of run_created.
abbrev pub run_created_fields : String → String → Fields
run_created_fields run_id operation_id =
    entries (("run_id", str run_id) ∷ ("operation_id", str operation_id) ∷ [])

module _ {Text : Type 0} (P : Platform Text) where
  -- How `create_run` ended.
  pub data Creates (tracks : Bool) (operation_id : String) (db : Db Text)
      (r : LifecycleResult × Db Text) : Type 0 where
    made :
        (e : LedgerEvent Text)
        → e.event_type ≡ "run_created"
        → e.operation_id ≡ some operation_id
        → canonicalize_payload P (dict (run_created_fields (P.uuid4 db.tick) operation_id))
          ≡ some e.payload_json
        → r.1.events ≡ db.events ++ e ∷ []
        → r.0 ≡ at_state (P.uuid4 db.tick) (some operation_id) "run_created"
        → r.1
          ≡ update_projection P tracks
              (P.uuid4 db.tick)
              "run_created"
              e.id
              e.created_at
              (record db { events = db.events ++ e ∷ []; tick = db.tick + 1 + 3 })
        → Creates tracks operation_id db r
    not_made :
        r.1.events ≡ db.events
        → r.0.success ≡ false
        → (n : ℕ) → r.1 ≡ record db { tick = n }
        → Creates tracks operation_id db r

  pub create_run-Creates :
      (tracks : Bool) (operation_id : String) (db : Db Text)
      → Creates tracks operation_id db (create_run P tracks operation_id db)
  unfolding create_run
  create_run-Creates tracks operation_id db = elim (Bool-cases (operation_id == "")) [
    | inl empty ↦ rw (empty, create_run) (not_made refl refl db.tick refl)
    | inr named ↦
        elim (append_event-Appends P (str "run_created") (str lifecycle_worker_id)
          (dict (run_created_fields (P.uuid4 db.tick) operation_id)) none (some operation_id)
          (record db { tick = db.tick + 1 })) [
            | kept x n later fell ↦ rw (named, create_run) (rw fell (not_made refl refl n refl))
            | wrote t w json et ew ej free stored ↦
                rw (named, create_run)
                  (rw stored (
                    unfold new_event in
                    made
                      (new_event P t w json none (some operation_id)
                        (record db { tick = db.tick + 1 }))
                      (ground arith) refl ej
                      (events-update_projection P tracks (P.uuid4 db.tick) "run_created" _ _ _) refl
                      refl))
          ]
  ]

  module _ (is_plain : String → Bool) (std : IsStandard P is_plain) where
    get_run_state-snoc :
        (run_id : String) (db : Db Text) (e : LedgerEvent Text) (es : List (LedgerEvent Text))
        → (run_id == "") ≡ false
        → db.events ≡ es ++ e ∷ []
        → P.mentions "run_id" run_id e.payload_json ≡ true
        → get_run_state P run_id db ≡ at_state run_id none e.event_type
    unfolding get_run_state
    get_run_state-snoc run_id db e es named grown found =
        let latest : last (run_events P run_id db.events) ≡ some e =
          rw grown
            (rw (run_events-snoc P run_id es e, found) (last-snoc (run_events P run_id es) e)) in
        rw (named, get_run_state) (rw (latest, get_run_state) refl)

    get_run_state_named :
        (run_id : String) (db : Db Text) (s : String)
        → (get_run_state P run_id db).current_state ≡ some s
        → (run_id == "") ≡ false
    unfolding get_run_state
    get_run_state_named run_id db s h = ground arith

    -- After a successful `append_lifecycle_event`, `get_run_state` answers with the event's type.
    -- The run id is plain, and no other key of the extra payload normalises to run_id.
    -- The platform is assumed to behave as documented.
    pub get_run_state-append_lifecycle_event :
        (tracks : Bool) (run_id event_type : String) (extra : Option Fields) (db : Db Text)
        → is_plain run_id ≡ true
        → value_under P.nfc "run_id" (put "run_id" (str run_id) (extra_fields extra))
          ≡ some (str run_id)
        → (append_lifecycle_event P tracks run_id event_type extra db).0.success ≡ true
        → get_run_state P run_id (append_lifecycle_event P tracks run_id event_type extra db).1
          ≡ at_state run_id none event_type
    get_run_state-append_lifecycle_event tracks run_id event_type extra db plain own won =
        elim (append_lifecycle_event-Advances P tracks run_id event_type extra db) [
          | stayed same failed n state ↦ cc (failed, won)
          | advanced s e at allowed ok typed stored grown _ now state ↦
              get_run_state-snoc run_id
                (append_lifecycle_event P tracks run_id event_type extra db).1 e db.events
                (get_run_state_named run_id db s at) grown
                (mentions-stored P is_plain std (put "run_id" (str run_id) (extra_fields extra))
                  e.payload_json stored "run_id" run_id refl own plain)
              ∙ ap (at_state run_id none) typed
        ]

    pub create_run_own :
        (run_id operation_id : String)
        → value_under P.nfc "run_id" (run_created_fields run_id operation_id) ≡ some (str run_id)
    unfolding value_under
    create_run_own run_id operation_id =
        value_under-known P is_plain std "run_id" (run_created_fields run_id operation_id) refl

    -- After a successful `create_run`, the new run is in the state run_created, under the id that
    -- was drawn.
    -- The platform is assumed to behave as documented.
    pub get_run_state-create_run :
        (tracks : Bool) (operation_id : String) (db : Db Text)
        → (create_run P tracks operation_id db).0.success ≡ true
        → (let r = create_run P tracks operation_id db in
            (r.0.run_id ≡ some (P.uuid4 db.tick))
            × (get_run_state P (P.uuid4 db.tick) r.1
                ≡ at_state (P.uuid4 db.tick) none "run_created"))
    get_run_state-create_run tracks operation_id db won =
        elim (create_run-Creates tracks operation_id db) [
          | not_made same failed n state ↦ cc (failed, won)
          | made e typed owned stored grown result state ↦
              let run_id = P.uuid4 db.tick in
              (
                ap (λ (r : LifecycleResult). r.run_id) result,
                get_run_state-snoc run_id (create_run P tracks operation_id db).1 e db.events
                      (ground (arith, std.uuid4_ne_empty db.tick, eq_iff run_id "")) grown
                      (mentions-stored P is_plain std (run_created_fields run_id operation_id)
                        e.payload_json stored "run_id" run_id refl
                        (create_run_own run_id operation_id) (std.uuid4_plain db.tick))
                    ∙ ap (at_state run_id none) typed,
              )
        ]

  -- Sequences of calls, as far as they concern one run: its own events, the creation of a run while the
  -- ledger shows none of its rows, and rows that the query for the run does not find.
  pub data Reaches (run_id : String) (db : Db Text) : Db Text → Type 0 where
    here : Reaches run_id db db
    advance :
        {mid after : Db Text}
        → Reaches run_id db mid
        → (tracks : Bool) (event_type : String) (extra : Option Fields)
        → after.events ≡ (append_lifecycle_event P tracks run_id event_type extra mid).1.events
        → Reaches run_id db after
    create :
        {mid after : Db Text}
        → Reaches run_id db mid
        → (tracks : Bool) (operation_id : String) → run_events P run_id mid.events ≡ []
        → after.events ≡ (create_run P tracks operation_id mid).1.events
        → Reaches run_id db after
    elsewhere :
        {mid after : Db Text}
        → Reaches run_id db mid
        → (more : List (LedgerEvent Text)) → after.events ≡ mid.events ++ more
        → run_events P run_id more ≡ []
        → Reaches run_id db after

  run_events-silent :
      (run_id : String) (mid after : Db Text) (more : List (LedgerEvent Text))
      → after.events ≡ mid.events ++ more
      → run_events P run_id more ≡ []
      → run_events P run_id after.events ≡ run_events P run_id mid.events
  unfolding run_events
  run_events-silent run_id mid after more grown silent =
      rw (grown, keep-append, silent) (append_none (run_events P run_id mid.events))

  create_run-IsHistory :
      (tracks : Bool) (run_id operation_id : String) (db : Db Text)
      → run_events P run_id db.events ≡ []
      → IsHistory (trace P run_id (create_run P tracks operation_id db).1.events)
  create_run-IsHistory tracks run_id operation_id db new =
      elim (create_run-Creates tracks operation_id db) [
        | not_made same failed n state ↦ rw (same, new) (unseen refl)
        | made e typed owned stored grown won state ↦
            rw (grown, run_events-snoc, new)
              (elim (Bool-cases (P.mentions "run_id" run_id e.payload_json)) [
                | inl found ↦ rw (found, typed) (created refl)
                | inr missed ↦ rw missed (unseen refl)
              ])
      ]

  -- From a ledger that shows no row for a run, along any sequence of calls of `append_lifecycle_event`
  -- for it with any event type and payload, of `create_run` while the ledger shows no row for it, and
  -- of appended rows that do not name it under run_id, the rows that the ledger shows for the run are a
  -- beginning of run_created, state_running, artifact_written, state_completed: no state is skipped,
  -- repeated or left backwards.
  pub Reaches-IsHistory :
      {run_id : String} {db after : Db Text}
      → run_events P run_id db.events ≡ []
      → Reaches run_id db after
      → IsHistory (trace P run_id after.events)
  Reaches-IsHistory new here = rw new (unseen refl)
  Reaches-IsHistory {run_id} new (advance {mid} r tracks event_type extra same) = rw same (
      append_lifecycle_event-IsHistory P tracks run_id event_type extra mid
        (Reaches-IsHistory new r))
  Reaches-IsHistory {run_id} new (create {mid} r tracks operation_id unknown same) =
      rw same (create_run-IsHistory tracks run_id operation_id mid unknown)
  Reaches-IsHistory {run_id} {db} {after} new (elsewhere {mid} r more grown silent) =
      rw (run_events-silent run_id mid after more grown silent) (Reaches-IsHistory new r)
