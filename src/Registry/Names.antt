-- ===== src/Registry/Names.antt =====
-- What a registration does to the look-up of names.
use leira.Prelude.{
  ap, ◌≡◌, refl, ◌∙◌, sym, String, Bool, true, false, Option, none, some, [], ◌∷◌, ◌++◌, arith,
  ◌==◌, eq_iff, if◌then◌else◌, inl, inr, ◌⊎◌, Bool-cases, Option-cases,
}
use leira.Value.{Value, str, dict, as_non_empty}
use leira.Platform.{Platform}
use leira.Table.{lookup, upsert, lookup-upsert}
use leira.Rows.{WorkerRow}
use leira.Ledger.{Db, LedgerEvent, new_event}
use leira.Ledger.Append.{wrote, kept, append_event-Appends}
use leira.Workers.{Worker}
use leira.Dispatch.{dispatch_once, dispatch_by_name}
use leira.Registry.{
  WorkerRegistry, registry_worker_id, registration_fields, get_worker, update_worker_projection,
  register_done, register_new, register_worker,
}

as_non_empty-some : (v : Value) (s : String) → as_non_empty v ≡ some s → v ≡ str s
as_non_empty-some v s h = ground arith

as_non_empty-full : (v : Value) (s : String) → as_non_empty v ≡ some s → (s == "") ≡ false
as_non_empty-full v s h = ground arith

module _ {Text : Type 0} (P : Platform Text) where
  events-update_worker_projection :
      (name : String) (row : WorkerRow) (db : Db Text)
      → (update_worker_projection P name row db).1.events ≡ db.events
  unfolding update_worker_projection
  events-update_worker_projection name row db = ground arith

  register_new-memory :
      (name : String) (worker : Worker) (workers : WorkerRegistry) (db : Db Text)
      → (let r = register_new P name worker workers db in
          ((r.0.success ≡ false) × (r.1 ≡ workers) × (r.2.events ≡ db.events))
          ⊎ ((e : LedgerEvent Text) × (r.0.success ≡ true)
              × (r.1 ≡ upsert name worker workers)
              × (e.event_type ≡ "worker_registered")
              × (r.2.events ≡ db.events ++ e ∷ [])))
  unfolding register_new register_done
  register_new-memory name worker workers db =
      elim (append_event-Appends P (str "worker_registered") (str registry_worker_id)
        (dict (registration_fields name "REGISTERED" none)) none none db) [
          | kept x n later made ↦ rw (made, register_new) (inl (refl, refl, refl))
          | wrote t w json et ew ej free made ↦
              let e = new_event P t w json none none db in
              let typed : e.event_type ≡ "worker_registered" = unfold new_event in ground arith in
              rw (made, register_new)
                (inr (e, refl, refl, typed, events-update_worker_projection name _ _))
        ]

  -- The registry in memory after a call of `register_worker`: unchanged if the call reports failure,
  -- which it does for a name that is not a text, is empty or is taken; else it reports success for a name that is
  -- not empty, only this name is looked up differently, as that worker, and one row worker_registered was added to the
  -- ledger.
  pub register_worker-get_worker :
      (worker : Worker) (workers : WorkerRegistry) (db : Db Text)
      → (let r = register_worker P worker workers db in
          ((r.0.success ≡ false) × (r.1 ≡ workers))
          ⊎ ((name : String) × (e : LedgerEvent Text) × (worker.name ≡ str name)
              × ((name == "") ≡ false)
              × (r.0.success ≡ true)
              × (get_worker workers name ≡ none)
              × ((k : String)
                  → get_worker r.1 k ≡ (if name == k then some worker else get_worker workers k))
              × (e.event_type ≡ "worker_registered")
              × (r.2.events ≡ db.events ++ e ∷ [])))
  unfolding register_worker get_worker
  register_worker-get_worker worker workers db = elim (Option-cases (as_non_empty worker.name)) [
    | inl nameless ↦ rw (nameless, register_worker) (inl (refl, refl))
    | inr (name, named) ↦ elim (Option-cases (lookup name workers)) [
      | inr (old, taken) ↦
          rw (named, register_worker) (rw (taken, register_worker) (inl (refl, refl)))
      | inl free ↦
          rw (named, register_worker)
            (rw (free, register_worker)
              (elim (register_new-memory name worker workers db) [
                | inl (failed, same, rows) ↦ inl (failed, same)
                | inr (e, ok, stored, typed, grown) ↦ inr (
                  name,
                  e,
                  as_non_empty-some worker.name name named,
                  as_non_empty-full worker.name name named,
                  ok,
                  free,
                  λ k. rw (stored) (lookup-upsert name k worker workers),
                  typed,
                  grown,
                )
              ]))
    ]
  ]

  -- A name that is registered stays with its worker, whatever is registered later: dispatching by
  -- the name is `dispatch_once` with that worker.
  dispatch_by_name-register_worker :
      (tracks : Bool) (intent_id name : String) (first later : Worker) (workers : WorkerRegistry)
      (db now : Db Text)
      → get_worker workers name ≡ some first
      → dispatch_by_name P tracks
          (get_worker (register_worker P later workers db).1)
          intent_id
          name
          now
        ≡ dispatch_once P tracks intent_id first now
  unfolding dispatch_by_name
  dispatch_by_name-register_worker tracks intent_id name first later workers db now held =
      elim (register_worker-get_worker later workers db) [
        | inl (failed, same) ↦ rw (same) (rw (held, dispatch_by_name) refl)
        | inr (other, e, its, full, ok, free, reads, typed, grown) ↦
            elim (Bool-cases (other == name)) [
              | inl taken ↦
                  let clash : ◌≡◌ {A = Option Worker} none (some first) =
                    sym free ∙ ap (get_worker workers) ((eq_iff other name).0 taken) ∙ held in
                  absurd (cc)
              | inr apart ↦
                  let still : get_worker (register_worker P later workers db).1 name ≡ some first =
                    reads name ∙ rw (apart) held in
                  rw (still, dispatch_by_name) refl
            ]
      ]
