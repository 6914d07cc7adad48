-- ===== src/Tests/GateRuns.antt =====
-- The theorems on the dispatches that capture provenance, at one intent.
use leira.Prelude.{◌≡◌, refl, String, true, false, some, none, [], ◌∷◌}
use leira.Value.{Value}
use leira.Ledger.{Db, init}
use leira.Workers.{echo_worker}
use leira.Provenance.{Surroundings, GitStatusResult, observed, captured}
use leira.Provenance.Capture.{capture_provenance, get_provenance}
use leira.Provenance.Kept.{get_provenance-capture_provenance}
use leira.Sessions.{list_session_intents}
use leira.Sessions.Views.{get_session_provenance}
use leira.Sessions.Seen.{Holds, first, get_session_provenance-capture_provenance}
use leira.Gated.{dispatch_with_provenance}
use leira.Gated.Gate.{Outcome, dispatch_with_provenance-Outcome}
use leira.Ledger.Fresh.{Fresh}
use leira.Tests.Toy.{uuid, uuid_apart}
use leira.Tests.LedgerRuns.{calm}
use leira.Tests.InboxRuns.{submitted_db}

abbrev clean : GitStatusResult
clean = record {
  success = true;
  head_sha = some "abc";
  branch = some "main";
  is_dirty = some false;
  status_porcelain = "";
  stderr = "";
  error_type = none;
}

abbrev around : Surroundings Value
around = record {
  inspect_repo = λ path. clean;
  runtime = observed "3.12" "linux" "python" [];
  size = λ text. 100;
  append_message = λ x. "";
  payload_message = "";
}

abbrev empty : Db Value
empty = init Value

empty-Fresh : Fresh calm empty
unfolding leira.Ledger.has_id
empty-Fresh = record { unused = λ n after. refl; apart = λ m n from before. uuid_apart m n before }

get_provenance-capture_provenance_example :
    (let (s, after) = capture_provenance calm around "i" "/repo" empty in
      (at : String) × (s ≡ captured (uuid 0) "i" "/repo" clean at)
      × (get_provenance (uuid 0) after ≡ some s))
get_provenance-capture_provenance_example =
    get_provenance-capture_provenance calm around "i" "/repo" empty (λ n. refl) empty-Fresh

dispatch_with_provenance-Outcome_example :
    Outcome calm around "/repo"
      (uuid 0)
      submitted_db
      (dispatch_with_provenance calm around "/repo" true (uuid 0) echo_worker submitted_db)
dispatch_with_provenance-Outcome_example =
    dispatch_with_provenance-Outcome calm around "/repo" (uuid 0) true echo_worker submitted_db

-- A session "s" with the intent "i" as its only member.
abbrev joined_db : Db Value
joined_db = record empty {
  membership_rows =
      record {
        session_id = "s";
        intent_id = "i";
        membership_order = 1;
        created_at = "";
        last_event_id = "";
      }
      ∷ [];
}

member : Holds "i" (list_session_intents "s" joined_db.membership_rows)
unfolding list_session_intents leira.Sessions.session_members leira.Prelude.sort_by
    leira.Prelude.insert_by
member = first

joined-Fresh : Fresh calm joined_db
unfolding leira.Ledger.has_id
joined-Fresh = record { unused = λ n after. refl; apart = λ m n from before. uuid_apart m n before }

get_session_provenance-capture_provenance_example :
    (let (s, after) = capture_provenance calm around "i" "/repo" joined_db in
      Holds s (get_session_provenance "s" after))
get_session_provenance-capture_provenance_example =
    get_session_provenance-capture_provenance calm around "i" "/repo" "s" joined_db (λ n. refl)
      joined-Fresh member
