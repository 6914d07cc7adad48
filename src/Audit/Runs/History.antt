-- ===== src/Audit/Runs/History.antt =====
-- What it means that the auditor reports no illegal transition of a run.
use leira.Prelude.{
  ◌≡◌, refl, sym, String, true, none, some, List, [], ◌∷◌, eq_iff, subst, inl, inr, ◌⊎◌, ◌↔◌,
}
use leira.Platform.{Platform}
use leira.Table.{lookup}
use leira.Ledger.{LedgerEvent}
use leira.Lifecycle.{allowed_transitions}
use leira.Lifecycle.Trace.{one_of, IsHistory, unseen, created, running, written, completed}
use leira.Audit.Transitions.{LegalFrom, trace, silent-LegalFrom, LegalFrom-silent}
use leira.Audit.Runs.{is_legal, run_of, check_lifecycle_transitions}

next_state : (s x y : String) → allowed_transitions s ≡ y ∷ [] → is_legal (some s) x ≡ true → x ≡ y
next_state s x y only legal = one_of x y (rw (only) at legal)

after_completed : (ys : List String) → LegalFrom is_legal (some "state_completed") ys → ys ≡ []
unfolding allowed_transitions
after_completed [] legal = refl
after_completed (y ∷ ys) (legal, rest) = absurd (cc)

after_written :
    (ys : List String)
    → LegalFrom is_legal (some "artifact_written") ys
    → (ys ≡ []) ⊎ (ys ≡ "state_completed" ∷ [])
after_written [] legal = inl refl
after_written (y ∷ ys) (legal, rest) =
    let its =
      next_state "artifact_written" y "state_completed" (unfold allowed_transitions in refl)
        legal in
    inr (rw (its, after_completed ys (rw (its) at rest)) refl)

after_running :
    (ys : List String)
    → LegalFrom is_legal (some "state_running") ys
    → (ys ≡ [])
      ⊎ (ys ≡ "artifact_written" ∷ [])
      ⊎ (ys ≡ "artifact_written" ∷ "state_completed" ∷ [])
after_running [] legal = inl refl
after_running (y ∷ ys) (legal, rest) =
    let its =
      next_state "state_running" y "artifact_written" (unfold allowed_transitions in refl) legal in
    elim (after_written ys (rw (its) at rest)) [
      | inl over ↦ inr (inl (rw (its, over) refl))
      | inr over ↦ inr (inr (rw (its, over) refl))
    ]

after_created :
    (ys : List String) → LegalFrom is_legal (some "run_created") ys → IsHistory ("run_created" ∷ ys)
after_created [] legal = created refl
after_created (y ∷ ys) (legal, rest) =
    let its =
      next_state "run_created" y "state_running" (unfold allowed_transitions in refl) legal in
    elim (after_running ys (rw (its) at rest)) [
      | inl over ↦ running (rw (its, over) refl)
      | inr (inl over) ↦ written (rw (its, over) refl)
      | inr (inr over) ↦ completed (rw (its, over) refl)
    ]

LegalFrom-IsHistory : (xs : List String) → LegalFrom is_legal none xs → IsHistory xs
LegalFrom-IsHistory [] legal = unseen refl
LegalFrom-IsHistory (x ∷ xs) (legal, rest) =
    let its = (eq_iff x "run_created").0 legal in
    subst (λ y. IsHistory (y ∷ xs)) (sym its) (after_created xs (rw (its) at rest))

IsHistory-LegalFrom : (xs : List String) → IsHistory xs → LegalFrom is_legal none xs
unfolding allowed_transitions
IsHistory-LegalFrom xs (unseen e) = rw (e) tt
IsHistory-LegalFrom xs (created e) = rw (e) (refl, tt)
IsHistory-LegalFrom xs (running e) = rw (e) (refl, (refl, tt))
IsHistory-LegalFrom xs (written e) = rw (e) (refl, (refl, (refl, tt)))
IsHistory-LegalFrom xs (completed e) = rw (e) (refl, (refl, (refl, (refl, tt))))

module _ {Text : Type 0} (P : Platform Text) where
  -- The types of the lifecycle events whose payload names the run, in the order of the ledger.
  abbrev pub run_trace : String → List (LedgerEvent Text) → List String
  run_trace run_id es = trace (run_of P) run_id es

  -- The auditor reports no illegal transition exactly if, for each run, the types of the lifecycle
  -- events whose payload names it are, in the order of the ledger, a beginning of run_created,
  -- state_running, artifact_written, state_completed.
  pub check_lifecycle_transitions-IsHistory :
      (es : List (LedgerEvent Text))
      → (check_lifecycle_transitions P es ≡ []
          ↔ ((run_id : String) → IsHistory (run_trace run_id es)))
  unfolding check_lifecycle_transitions lookup
  check_lifecycle_transitions-IsHistory es = (
    (λ silent run_id.
        LegalFrom-IsHistory (run_trace run_id es)
          (silent-LegalFrom (run_of P) is_legal run_id [] es silent)),
    (λ histories.
        LegalFrom-silent (run_of P) is_legal [] es
          (λ run_id. IsHistory-LegalFrom (run_trace run_id es) (histories run_id))),
  )
