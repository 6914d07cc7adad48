-- ===== src/Dispatch/Keeps.antt =====
-- What the calls of a dispatch leave alone: the invocations and, but for its own events, the status
-- of the intent.
use leira.Prelude.{
  ap, ◌≡◌, refl, ◌∙◌, sym, String, Bool, true, false, Option, [], ◌∷◌, ◌++◌, arith, ◌==◌, eq_iff,
  contains, inl, inr, Bool-cases,
}
use leira.Value.{Fields}
use leira.Platform.{Platform}
use leira.Ledger.{Db, LedgerEvent}
use leira.Rows.{IntentRow}
use leira.Lifecycle.{create_run, append_lifecycle_event, update_projection, appendable_run_events}
use leira.Lifecycle.Trace.{advanced, stayed, append_lifecycle_event-Advances}
use leira.Lifecycle.Reach.{made, not_made, create_run-Creates}
use leira.Projection.{update_from_event}
use leira.Inbox.{
  get_intent_status, is_intent_event, intent_ledger_event_types, intent_status_by_event_type,
  has_ended, update_intent_projection,
}
use leira.Inbox.Status.{get_intent_status-snoc}

module _ {Text : Type 0} (P : Platform Text) where
  -- What a call leaves alone: the invocations and an intent's status.
  abbrev pub Keeps : String → Db Text → Db Text → Type 0
  Keeps i db later =
      (later.calls ≡ db.calls) × (get_intent_status P i later ≡ get_intent_status P i db)

  calls-update_projection :
      (tracks : Bool) (run_id t i at : String) (db : Db Text)
      → (update_projection P tracks run_id t i at db).calls ≡ db.calls
  unfolding update_projection update_from_event
  calls-update_projection tracks run_id t i at db = ground arith

  pub update_intent_projection-Keeps :
      (i j : String) (row : IntentRow) (db : Db Text)
      → Keeps i db (update_intent_projection P j row db).1
  unfolding update_intent_projection get_intent_status
  update_intent_projection-Keeps i j row db = elim (Bool-cases (P.fails db.tick)) [
    | inl e ↦ rw (e, update_intent_projection) (refl, refl)
    | inr e ↦ rw (e, update_intent_projection) (refl, refl)
  ]

  -- Rows of other types than an intent's do not touch its status.
  pub status_unmoved :
      (i : String) (db later : Db Text) (e : LedgerEvent Text)
      → later.events ≡ db.events ++ e ∷ []
      → contains intent_ledger_event_types e.event_type ≡ false
      → get_intent_status P i later ≡ get_intent_status P i db
  unfolding is_intent_event
  status_unmoved i db later e grown other =
      get_intent_status-snoc P i db later e grown ∙ rw (other, is_intent_event) (ground arith)

  -- A row of an intent event moves the status of an intent that it names and that has not ended.
  pub status_moved :
      (i : String) (db later : Db Text) (e : LedgerEvent Text)
      → later.events ≡ db.events ++ e ∷ []
      → contains intent_ledger_event_types e.event_type ≡ true
      → P.mentions "intent_id" i e.payload_json ≡ true
      → has_ended (get_intent_status P i db) ≡ false
      → get_intent_status P i later ≡ intent_status_by_event_type e.event_type
  unfolding is_intent_event
  status_moved i db later e grown typed named open_yet =
      get_intent_status-snoc P i db later e grown
      ∙ rw (open_yet) (rw (typed, is_intent_event) (rw (named, is_intent_event) refl))

  pub same_status :
      (i : String) (db later : Db Text)
      → later.events ≡ db.events
      → get_intent_status P i later ≡ get_intent_status P i db
  unfolding get_intent_status
  same_status i db later same = rw (same) refl

  run_event_types :
      (t : String)
      → contains appendable_run_events t ≡ true
      → contains intent_ledger_event_types t ≡ false
  run_event_types t h = elim (Bool-cases ("state_running" == t)) [
    | inl e ↦ rw (sym ((eq_iff "state_running" t).0 e)) refl
    | inr e1 ↦ elim (Bool-cases ("artifact_written" == t)) [
      | inl e ↦ rw (sym ((eq_iff "artifact_written" t).0 e)) refl
      | inr e2 ↦ elim (Bool-cases ("state_completed" == t)) [
        | inl e ↦ rw (sym ((eq_iff "state_completed" t).0 e)) refl
        | inr e3 ↦ let never : false ≡ true = rw (e1, e2, e3) at h in absurd (cc)
      ]
    ]
  ]

  pub append_lifecycle_event-Keeps :
      (i : String) (tracks : Bool) (run_id t : String) (extra : Option Fields) (db : Db Text)
      → Keeps i db (append_lifecycle_event P tracks run_id t extra db).1
  append_lifecycle_event-Keeps i tracks run_id t extra db =
      elim (append_lifecycle_event-Advances P tracks run_id t extra db) [
        | advanced s e at allowed ok typed stored grown done now ends ↦ (
          ap (λ d. d.calls) ends ∙ calls-update_projection tracks run_id t e.id e.created_at _,
          status_unmoved i db _ e grown (rw (typed) (run_event_types t ok)),
        )
        | stayed same failed n ends ↦ (ap (λ d. d.calls) ends, same_status i db _ same)
      ]

  pub create_run-Keeps :
      (i : String) (tracks : Bool) (operation_id : String) (db : Db Text)
      → Keeps i db (create_run P tracks operation_id db).1
  create_run-Keeps i tracks operation_id db = elim (create_run-Creates P tracks operation_id db) [
    | made e typed op stored grown answer ends ↦ (
      ap (λ d. d.calls) ends ∙ calls-update_projection tracks _ "run_created" e.id e.created_at _,
      status_unmoved i db _ e grown (rw (typed) refl),
    )
    | not_made same failed n ends ↦ (ap (λ d. d.calls) ends, same_status i db _ same)
  ]
