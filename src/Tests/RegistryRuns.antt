-- ===== src/Tests/RegistryRuns.antt =====
-- The theorems on the registry, sessions and receipts, at one worker, one session and one intent.
use leira.Prelude.{
  ◌↔◌, ◌≡◌, refl, String, true, false, none, some, [], ◌∷◌, ◌++◌, ◌⊎◌, ◌==◌, if◌then◌else◌,
}
use leira.Value.{Value, str}
use leira.Errors.{ErrorType, duplicate_membership}
use leira.Table.{lookup}
use leira.Ledger.{Db, LedgerEvent, init}
use leira.Workers.{echo_worker}
use leira.Registry.{get_worker, register_worker}
use leira.Registry.Names.{register_worker-get_worker}
use leira.Sessions.{
  SessionResult, session_failed, list_session_intents, create_session, add_intent_to_session,
}
use leira.Sessions.Order.{IsNumbered}
use leira.Sessions.Members.{list_session_intents-add_intent_to_session}
use leira.Sessions.Again.{add_intent_to_session_again}
use leira.Receipts.{ReceiptBundle, list_receipt_events, bundle_of, get_receipt_bundle}
use leira.Receipts.Contents.{BelongsTo, get_receipt_bundle-BelongsTo}
use leira.Sessions.Seen.{Holds}
use leira.Tests.Toy.{is_plain, toy-IsStandard, uuid}
use leira.Tests.LedgerRuns.{never, calm}
use leira.Tests.InboxRuns.{submitted_db, noise}

abbrev empty : Db Value
empty = init Value

abbrev pub registered_db : Db Value
registered_db = (register_worker calm echo_worker [] empty).2

register_worker-get_worker_example :
    (let r = register_worker calm echo_worker [] empty in
      ((r.0.success ≡ false) × (r.1 ≡ []))
      ⊎ ((name : String) × (e : LedgerEvent Value) × (echo_worker.name ≡ str name)
          × ((name == "") ≡ false)
          × (r.0.success ≡ true)
          × (get_worker [] name ≡ none)
          × ((k : String)
              → get_worker r.1 k ≡ (if name == k then some echo_worker else get_worker [] k))
          × (e.event_type ≡ "worker_registered")
          × (r.2.events ≡ empty.events ++ e ∷ [])))
register_worker-get_worker_example = register_worker-get_worker calm echo_worker [] empty

-- The session "uuuuuu", made after the intent "u".
abbrev session_db : Db Value
session_db = (create_session calm submitted_db).1

abbrev member_db : Db Value
member_db = (add_intent_to_session calm (uuid 5) (uuid 0) session_db).1

numbered : IsNumbered session_db.membership_rows
unfolding create_session leira.Sessions.session_members leira.Sessions.create_done
    leira.Ledger.append_event leira.Ledger.canonicalize_payload leira.Value.normalize_value
    leira.Ledger.insert_event leira.Ledger.has_id leira.Inbox.submit_intent
    leira.Inbox.validate_intent leira.Inbox.stored_payload leira.Inbox.is_non_serializable
    leira.Inbox.store_intent lookup leira.Ledger.new_event uuid leira.Sessions.store_session
    leira.Value.prints leira.Value.put
numbered k = tt

list_session_intents-add_intent_to_session_example :
    (let r = add_intent_to_session calm (uuid 5) (uuid 0) session_db in
      IsNumbered r.1.membership_rows
      × (((r.0
              ≡ some (record {
                success = true;
                session_id = some (uuid 5);
                intent_id = some (uuid 0);
                error_type = none;
              }))
            × ((k : String)
                → list_session_intents k r.1.membership_rows ≡ (
                    if uuid 5 == k
                    then list_session_intents k session_db.membership_rows ++ uuid 0 ∷ []
                    else list_session_intents k session_db.membership_rows)))
          ⊎ (((r.0 ≡ none) ⊎ ((x : ErrorType) × (r.0 ≡ some (session_failed (uuid 5) (uuid 0) x))))
              × ((k : String)
                  → list_session_intents k r.1.membership_rows
                    ≡ list_session_intents k session_db.membership_rows))))
list_session_intents-add_intent_to_session_example =
    list_session_intents-add_intent_to_session calm (uuid 5) (uuid 0) session_db numbered

abbrev joined_session : SessionResult
joined_session = record {
  success = true;
  session_id = some (uuid 5);
  intent_id = some (uuid 0);
  error_type = none;
}

added_once : (add_intent_to_session calm (uuid 5) (uuid 0) session_db).0 ≡ some joined_session
unfolding add_intent_to_session leira.Sessions.refusal leira.Sessions.session_exists create_session
    leira.Sessions.create_done leira.Ledger.append_event leira.Ledger.canonicalize_payload
    leira.Value.normalize_value leira.Ledger.insert_event leira.Ledger.has_id
    leira.Inbox.submit_intent leira.Inbox.validate_intent leira.Inbox.stored_payload
    leira.Inbox.is_non_serializable leira.Inbox.store_intent lookup leira.Ledger.new_event
    leira.Errors.error_name leira.Inbox.get_intent_status leira.Inbox.intent_events
    leira.Inbox.intent_status_by_event_type leira.Inbox.is_intent_event leira.Inbox.status_of
    leira.Inbox.submit_done leira.Ledger.compute_event_hash leira.Ledger.hash_input
    leira.Ledger.head_hash leira.Prelude.insert_by leira.Prelude.sort_by leira.Sessions.add_done
    leira.Sessions.add_member leira.Sessions.append_rejection leira.Sessions.count_intents
    leira.Sessions.has_member list_session_intents leira.Sessions.membership_exists
    leira.Sessions.session_members leira.Sessions.store_member leira.Sessions.store_session
    leira.Table.upsert leira.Value.put uuid leira.Tests.Toy.shows leira.Value.prints
added_once = refl

-- The ledger later, with one more row.
abbrev later : Db Value
later = record member_db { events = member_db.events ++ noise ∷ [] }

plain_session : is_plain (uuid 5) ≡ true
unfolding uuid
plain_session = refl

plain_intent : is_plain (uuid 0) ≡ true
unfolding uuid
plain_intent = refl

add_intent_to_session_again_example :
    (let again = add_intent_to_session calm (uuid 5) (uuid 0) later in
      (again.0 ≡ some (session_failed (uuid 5) (uuid 0) duplicate_membership))
      × (again.1.membership_rows ≡ later.membership_rows)
      × (again.1.session_rows ≡ later.session_rows))
add_intent_to_session_again_example =
    add_intent_to_session_again calm is_plain (toy-IsStandard never) (uuid 5) (uuid 0) session_db
      later (noise ∷ []) joined_session plain_session plain_intent added_once refl refl

abbrev bundle : ReceiptBundle Value
bundle =
    bundle_of calm (uuid 0)
      (record {
        first_event_id = uuid 2;
        last_event_id = uuid 2;
        event_count = 1;
        updated_at = "now";
      })
      submitted_db.events []

bundled : (get_receipt_bundle calm (uuid 0) submitted_db).0 ≡ some (some bundle)
unfolding get_receipt_bundle leira.Receipts.shape_of list_receipt_events leira.Inbox.submit_intent
    leira.Ledger.append_event leira.Inbox.validate_intent leira.Ledger.canonicalize_payload
    leira.Value.normalize_value leira.Inbox.stored_payload leira.Inbox.is_non_serializable
    leira.Ledger.insert_event leira.Ledger.has_id leira.Inbox.store_intent lookup
    leira.Receipts.is_receipt_event leira.Tests.Toy.shows leira.Ledger.new_event
    leira.Errors.error_name leira.Inbox.submit_done leira.Ledger.compute_event_hash
    leira.Ledger.hash_input leira.Ledger.head_hash leira.Receipts.artifact_in
    leira.Receipts.artifact_of leira.Receipts.content_of leira.Receipts.minted_run
    leira.Receipts.elements leira.Receipts.environment_content leira.Receipts.environment_of
    leira.Receipts.environments_in leira.Receipts.gather leira.Receipts.get_or
    leira.Receipts.is_run_of leira.Receipts.mentions_any leira.Receipts.package_of
    leira.Receipts.packages_of leira.Receipts.provenance_in leira.Receipts.provenance_of
    leira.Receipts.update_receipt_projection leira.Table.upsert leira.Value.get
    leira.Value.get_non_empty leira.Value.get_str leira.Value.put uuid leira.Value.prints
bundled = refl

get_receipt_bundle-BelongsTo_example :
    Holds noise bundle.events
    ↔ (Holds noise submitted_db.events × BelongsTo calm (uuid 0) submitted_db.events noise)
get_receipt_bundle-BelongsTo_example =
    get_receipt_bundle-BelongsTo calm (uuid 0) submitted_db bundle noise bundled
