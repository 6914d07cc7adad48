-- ===== src/Audit/Sessions.antt =====
-- The checks of leira/audit/auditor.py on sessions and their members.
use leira.Prelude.{
  ◌+◌, String, Bool, true, false, Option, none, some, List, [], ◌∷◌, ◌++◌, ◌<>◌, ◌==◌, not, ◌&&◌,
  contains, each, keep, map, sort_by, is_some, if◌then◌else◌,
}
use leira.Value.{get_non_empty, ◌>>=◌}
use leira.Platform.{Platform}
use leira.Table.{Table, lookup, upsert}
use leira.Rows.{SessionRow, MembershipRow}
use leira.Ledger.{LedgerEvent}
use leira.Sessions.{session_created_event, session_intent_added_event, artifact_content}
use leira.Sessions.Rebuild.{has_pair}
use leira.Receipts.{gather}
use leira.Audit.{report, report_if, parse_payload, compare_expected, unexpected_entries}
use leira.Audit.Snapshots.{pair_precedes, same_size}
use leira.Audit.Intents.{intent_payload, submission_event_types}

abbrev pub same_session : SessionRow → SessionRow → Bool
same_session a b =
    same_size a.intent_count b.intent_count
    && (a.created_at == b.created_at && a.last_event_id == b.last_event_id)

unfoldable pub judge_session : String → SessionRow → Option SessionRow → List String
judge_session session_id expected none = report "SESSION_PROJECTION_MISMATCH" session_id ∷ []
judge_session session_id expected (some row) =
    report_if (not (same_session row expected)) "SESSION_PROJECTION_MISMATCH" session_id

-- The row under the key (session_id, intent_id).
unfoldable pub find_member : String → String → List MembershipRow → Option MembershipRow
find_member session_id intent_id [] = none
find_member session_id intent_id (row ∷ rows) =
    if row.session_id == session_id && row.intent_id == intent_id
    then some row
    else find_member session_id intent_id rows

abbrev pub same_member : MembershipRow → MembershipRow → Bool
same_member a b =
    same_size a.membership_order b.membership_order
    && (a.created_at == b.created_at && a.last_event_id == b.last_event_id)

abbrev pub member_key : MembershipRow → String × String
member_key row = (row.session_id, row.intent_id)

abbrev pub by_key : MembershipRow → MembershipRow → Bool
by_key a b = pair_precedes (member_key a) (member_key b)

-- What is said of an expected member.
unfoldable pub judge_member : List MembershipRow → MembershipRow → List String
judge_member actual expected =
    report_if
      (elim (find_member expected.session_id expected.intent_id actual) [
        | none ↦ true
        | some row ↦ not (same_member row expected)
      ])
      "SESSION_MEMBERSHIP_PROJECTION_MISMATCH" (expected.session_id <> ":" <> expected.intent_id)

-- The members of the table that are not expected.
unfoldable pub unexpected_members : List MembershipRow → List MembershipRow → List String
unexpected_members expected actual =
    map
      (λ row.
        report "SESSION_MEMBERSHIP_PROJECTION_UNEXPECTED_ENTRY"
          (row.session_id <> ":" <> row.intent_id))
      (sort_by by_key
        (keep (λ row. not (is_some (find_member row.session_id row.intent_id expected))) actual))

-- What `compute_expected_session_projection` has so far; the dict counts is the column intent_count.
pub record ExpectedSessions : Type 0 where
  pub sessions : Table SessionRow
  pub members : List MembershipRow

module _ {Text : Type 0} (P : Platform Text) where
  -- `_session_payload_ids`
  unfoldable pub session_payload_ids : LedgerEvent Text → Option String × Option String
  session_payload_ids e = elim (parse_payload P e) [
    | none ↦ (none, none)
    | some payload ↦ elim (artifact_content payload) [
      | some content ↦ (get_non_empty "session_id" content, get_non_empty "intent_id" content)
      | none ↦ (get_non_empty "session_id" payload, get_non_empty "intent_id" payload)
    ]
  ]

  unfoldable pub known_intents : List (LedgerEvent Text) → List String
  known_intents es = gather (λ e. intent_payload P submission_event_types e >>= λ r. some r.0) es

  -- The round of `check_session_history` for a session_intent_added.
  unfoldable pub membership_reports :
      List String → List String → List (String × String) → String → String → String → List String
  membership_reports intents sessions seen event_id session_id intent_id =
      report_if (not (contains sessions session_id)) "SESSION_UNKNOWN_SESSION" event_id
      ++ report_if (not (contains intents intent_id)) "SESSION_UNKNOWN_INTENT" event_id
      ++ report_if (has_pair session_id intent_id seen) "DUPLICATE_SESSION_MEMBERSHIP"
          (session_id <> ":" <> intent_id)

  abbrev pub with_session : Option String → List String → List String
  with_session none sessions = sessions
  with_session (some session_id) sessions = session_id ∷ sessions

  -- The two ids, if both are there.
  abbrev pub both_ids : Option String × Option String → Option (String × String)
  both_ids (some session_id, some intent_id) = some (session_id, intent_id)
  both_ids (a, b) = none

  unfoldable pub session_history_from :
      List String → List String → List (String × String) → List (LedgerEvent Text) → List String
  session_history_from intents sessions seen [] = []
  session_history_from intents sessions seen (e ∷ es) =
      elim (e.event_type == session_created_event) [
        | true ↦
            session_history_from intents (with_session (session_payload_ids e).0 sessions) seen es
        | false ↦ elim (e.event_type == session_intent_added_event) [
          | false ↦ session_history_from intents sessions seen es
          | true ↦ elim (both_ids (session_payload_ids e)) [
            | none ↦
                report "SESSION_MEMBERSHIP_SCHEMA_INVALID" e.id
                ∷ session_history_from intents sessions seen es
            | some (session_id, intent_id) ↦
                membership_reports intents sessions seen e.id session_id intent_id
                ++ session_history_from intents sessions ((session_id, intent_id) ∷ seen) es
          ]
        ]
      ]

  unfoldable pub check_session_history : List (LedgerEvent Text) → List String
  check_session_history es = session_history_from (known_intents es) [] [] es

  -- A session_created: a session that is there already stays as it is.
  unfoldable pub expect_session : LedgerEvent Text → ExpectedSessions → ExpectedSessions
  expect_session e x = elim (session_payload_ids e).0 [
    | none ↦ x
    | some session_id ↦ if is_some (lookup session_id x.sessions) then x else record {
      sessions =
          upsert session_id
            (record { intent_count = 0; created_at = e.created_at; last_event_id = e.id })
            x.sessions;
      members = x.members;
    }
  ]

  -- A session_intent_added; the members so far are the memberships that were seen.
  unfoldable pub expect_member : LedgerEvent Text → ExpectedSessions → ExpectedSessions
  expect_member e x = elim (both_ids (session_payload_ids e)) [
    | none ↦ x
    | some (session_id, intent_id) ↦ elim (lookup session_id x.sessions) [
      | none ↦ x
      | some row ↦
          if is_some (find_member session_id intent_id x.members)
          then x
          else let order = row.intent_count + 1 in
            record {
              sessions =
                  upsert session_id
                    (record {
                      intent_count = order;
                      created_at = row.created_at;
                      last_event_id = e.id;
                    })
                    x.sessions;
              members =
                  x.members
                  ++ (record {
                    session_id = session_id;
                    intent_id = intent_id;
                    membership_order = order;
                    created_at = e.created_at;
                    last_event_id = e.id;
                  })
                    ∷ [];
            }
    ]
  ]

  unfoldable pub expected_sessions_from :
      ExpectedSessions → List (LedgerEvent Text) → ExpectedSessions
  expected_sessions_from x [] = x
  expected_sessions_from x (e ∷ es) =
      expected_sessions_from
        (if e.event_type == session_created_event
          then expect_session e x
          else if e.event_type == session_intent_added_event
          then expect_member e x
          else x)
        es

  unfoldable pub compute_expected_session_projection : List (LedgerEvent Text) → ExpectedSessions
  compute_expected_session_projection es =
      expected_sessions_from (record { sessions = []; members = [] }) es

  unfoldable pub check_session_projection :
      Table SessionRow → List MembershipRow → List (LedgerEvent Text) → List String
  check_session_projection actual actual_members es =
      let expected = compute_expected_session_projection es in
      compare_expected judge_session expected.sessions actual
      ++ unexpected_entries "SESSION_PROJECTION_UNEXPECTED_ENTRY" expected.sessions actual
      ++ each (judge_member actual_members) (sort_by by_key expected.members)
      ++ unexpected_members expected.members actual_members
