-- ===== src/Tests/LifecycleRuns.antt =====
-- The theorems on runs and their projection, at a run of one operation.
use leira.Prelude.{◌≡◌, refl, ℕ, String, all, true, false, none, some, []}
use leira.Value.{Value}
use leira.Ledger.{Db, init, append_event, insert_event, new_event, canonicalize_payload, has_id}
use leira.Projection.{is_readable, update_from_event}
use leira.Lifecycle.{
  create_run, append_lifecycle_event, get_run_state, run_events, at_state, allowed_transitions,
  update_projection,
}
use leira.Lifecycle.Trace.{IsHistory}
use leira.Lifecycle.History.{trace}
use leira.Lifecycle.Reach.{
  Reaches, here, create, advance, Reaches-IsHistory, get_run_state-append_lifecycle_event,
}
use leira.Lifecycle.Sync.{InSync, append_lifecycle_event-InSync, create_run-InSync}
use leira.Tests.Toy.{is_plain, toy-IsStandard, uuid}
use leira.Tests.LedgerRuns.{never, calm}

abbrev empty : Db Value
empty = init Value

-- The run "u", created and started.
abbrev pub created_run : Db Value
created_run = (create_run calm true "op" empty).1

abbrev running_run : Db Value
running_run = (append_lifecycle_event calm true "u" "state_running" none created_run).1

abbrev pub done_run : Db Value
done_run =
    (append_lifecycle_event calm true "u" "state_completed" none
      (append_lifecycle_event calm true "u" "artifact_written" none running_run).1).1

unseen_run : run_events calm "u" empty.events ≡ []
unfolding run_events
unseen_run = refl

created_reached : Reaches calm "u" empty created_run
created_reached = create here true "op" unseen_run refl

running_reached : Reaches calm "u" empty running_run
running_reached = advance created_reached true "state_running" none refl

Reaches-IsHistory_example : IsHistory (trace calm "u" running_run.events)
Reaches-IsHistory_example = Reaches-IsHistory calm unseen_run running_reached

created-IsHistory : IsHistory (trace calm "u" created_run.events)
created-IsHistory = Reaches-IsHistory calm unseen_run created_reached

create_run_works : (create_run calm true "op" empty).0.success ≡ true
unfolding create_run append_event insert_event canonicalize_payload leira.Value.normalize_value
    has_id leira.Value.prints leira.Value.put
create_run_works = refl

start_works :
    (append_lifecycle_event calm true "u" "state_running" none created_run).0.success ≡ true
unfolding append_lifecycle_event get_run_state run_events create_run append_event
    canonicalize_payload leira.Value.normalize_value insert_event has_id update_projection
    update_from_event leira.Tests.Toy.shows new_event leira.Value.put uuid allowed_transitions
    leira.Value.prints
start_works = refl

get_run_state-append_lifecycle_event_example :
    get_run_state calm "u" running_run ≡ at_state "u" none "state_running"
unfolding leira.Value.Normal.value_under leira.Value.put
get_run_state-append_lifecycle_event_example =
    get_run_state-append_lifecycle_event calm is_plain (toy-IsStandard never) true "u"
      "state_running" none created_run refl refl start_works

done_state : (get_run_state calm "u" done_run).current_state ≡ some "state_completed"
unfolding append_lifecycle_event get_run_state run_events create_run append_event
    canonicalize_payload leira.Value.normalize_value insert_event has_id update_projection
    update_from_event leira.Tests.Toy.shows new_event leira.Value.put uuid allowed_transitions
    leira.Value.prints
done_state = refl

steady : (n : ℕ) → never n ≡ false
steady n = refl

empty-InSync : InSync calm empty
unfolding leira.Projection.rebuild_from
empty-InSync = (refl, λ run_id. refl)

next_InSync :
    (event_type : String) (db : Db Value)
    → InSync calm db
    → InSync calm (append_lifecycle_event calm true "u" event_type none db).1
unfolding leira.Value.Normal.value_under leira.Value.put
next_InSync event_type db h =
    append_lifecycle_event-InSync calm is_plain (toy-IsStandard never) steady "u" event_type none db
      refl refl h

pub done_readable : all (is_readable calm) done_run.events ≡ true
done_readable =
    (next_InSync "state_completed" _ (
      next_InSync "artifact_written" _ (
        next_InSync "state_running" _ (
          create_run-InSync calm is_plain (toy-IsStandard never) steady "op" empty
            empty-InSync)))).0

append_lifecycle_event-InSync_example : InSync calm running_run
unfolding leira.Value.Normal.value_under leira.Value.put
append_lifecycle_event-InSync_example =
    append_lifecycle_event-InSync calm is_plain (toy-IsStandard never) steady "u" "state_running"
      none created_run refl refl
      (create_run-InSync calm is_plain (toy-IsStandard never) steady "op" empty empty-InSync)
