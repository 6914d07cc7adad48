-- ===== src/Audit/Intents/History.antt =====
-- What it means that the auditor reports no illegal transition of an intent.
use leira.Prelude.{
  ◌≡◌, refl, sym, subst, String, true, false, none, some, List, [], ◌∷◌, arith, ◌==◌, eq_iff,
  contains, inl, inr, ◌⊎◌, ◌↔◌, Bool-cases,
}
use leira.Platform.{Platform}
use leira.Table.{lookup}
use leira.Ledger.{LedgerEvent}
use leira.Lifecycle.Trace.{one_of}
use leira.Audit.Transitions.{LegalFrom, trace, silent-LegalFrom, LegalFrom-silent}
use leira.Audit.Intents.{allowed_intent_transitions, is_legal, intent_of, check_intent_transitions}

-- The lives of an intent that the ledger may show.
pub data IsIntentHistory (t : List String) : Type 0 where
  unseen : t ≡ [] → IsIntentHistory t
  rejected : t ≡ "intent_rejected" ∷ [] → IsIntentHistory t
  pending : t ≡ "intent_submitted" ∷ [] → IsIntentHistory t
  claimed : t ≡ "intent_submitted" ∷ "intent_claimed" ∷ [] → IsIntentHistory t
  completed :
      t ≡ "intent_submitted" ∷ "intent_claimed" ∷ "intent_completed" ∷ [] → IsIntentHistory t
  failed : t ≡ "intent_submitted" ∷ "intent_claimed" ∷ "intent_failed" ∷ [] → IsIntentHistory t

one_of_two : (x y z : String) → contains (y ∷ z ∷ []) x ≡ true → (x ≡ y) ⊎ (x ≡ z)
one_of_two x y z h = elim (Bool-cases (y == x)) [
  | inl same ↦ inl (sym ((eq_iff y x).0 same))
  | inr apart ↦ inr (one_of x z (ground arith))
]

-- Nothing follows an event that the table gives no successor.
nothing_after :
    (s : String) (ys : List String)
    → allowed_intent_transitions s ≡ []
    → LegalFrom is_legal (some s) ys
    → ys ≡ []
nothing_after s [] none_allowed legal = refl
nothing_after s (y ∷ ys) none_allowed (legal, rest) =
    let never : false ≡ true = rw (none_allowed) at legal in absurd (cc)

after_claimed :
    (ys : List String)
    → LegalFrom is_legal (some "intent_claimed") ys
    → (ys ≡ []) ⊎ (ys ≡ "intent_completed" ∷ []) ⊎ (ys ≡ "intent_failed" ∷ [])
unfolding allowed_intent_transitions
after_claimed [] legal = inl refl
after_claimed (y ∷ ys) (legal, rest) =
    elim (one_of_two y "intent_completed" "intent_failed" legal) [
      | inl its ↦
          inr (inl (rw (its, nothing_after "intent_completed" ys refl (rw (its) at rest)) refl))
      | inr its ↦
          inr (inr (rw (its, nothing_after "intent_failed" ys refl (rw (its) at rest)) refl))
    ]

after_submitted :
    (ys : List String)
    → LegalFrom is_legal (some "intent_submitted") ys
    → IsIntentHistory ("intent_submitted" ∷ ys)
unfolding allowed_intent_transitions
after_submitted [] legal = pending refl
after_submitted (y ∷ ys) (legal, rest) =
    let its = one_of y "intent_claimed" legal in
    elim (after_claimed ys (rw (its) at rest)) [
      | inl over ↦ claimed (rw (its, over) refl)
      | inr (inl over) ↦ completed (rw (its, over) refl)
      | inr (inr over) ↦ failed (rw (its, over) refl)
    ]

LegalFrom-IsIntentHistory : (xs : List String) → LegalFrom is_legal none xs → IsIntentHistory xs
unfolding allowed_intent_transitions
LegalFrom-IsIntentHistory [] legal = unseen refl
LegalFrom-IsIntentHistory (x ∷ xs) (legal, rest) =
    elim (one_of_two x "intent_submitted" "intent_rejected" legal) [
      | inl its ↦
          subst (λ y. IsIntentHistory (y ∷ xs)) (sym its) (after_submitted xs (rw (its) at rest))
      | inr its ↦
          rejected (rw (its, nothing_after "intent_rejected" xs refl (rw (its) at rest)) refl)
    ]

IsIntentHistory-LegalFrom : (xs : List String) → IsIntentHistory xs → LegalFrom is_legal none xs
unfolding allowed_intent_transitions
IsIntentHistory-LegalFrom xs (unseen e) = rw (e) tt
IsIntentHistory-LegalFrom xs (rejected e) = rw (e) (refl, tt)
IsIntentHistory-LegalFrom xs (pending e) = rw (e) (refl, tt)
IsIntentHistory-LegalFrom xs (claimed e) = rw (e) (refl, (refl, tt))
IsIntentHistory-LegalFrom xs (completed e) = rw (e) (refl, (refl, (refl, tt)))
IsIntentHistory-LegalFrom xs (failed e) = rw (e) (refl, (refl, (refl, tt)))

module _ {Text : Type 0} (P : Platform Text) where
  -- The types of the intent events whose payload names the intent, in the order of the ledger.
  abbrev pub intent_trace : String → List (LedgerEvent Text) → List String
  intent_trace intent_id es = trace (intent_of P) intent_id es

  -- The auditor reports no illegal transition of an intent exactly if, for each intent, the types of
  -- the intent events whose payload names it are, in the order of the ledger: none, a rejection, or
  -- a beginning of submitted, claimed, completed or failed.
  pub check_intent_transitions-IsIntentHistory :
      (es : List (LedgerEvent Text))
      → (check_intent_transitions P es ≡ []
          ↔ ((intent_id : String) → IsIntentHistory (intent_trace intent_id es)))
  unfolding check_intent_transitions lookup
  check_intent_transitions-IsIntentHistory es = (
    (λ silent intent_id.
        LegalFrom-IsIntentHistory (intent_trace intent_id es)
          (silent-LegalFrom (intent_of P) is_legal intent_id [] es silent)),
    (λ histories.
        LegalFrom-silent (intent_of P) is_legal [] es (λ intent_id.
          IsIntentHistory-LegalFrom (intent_trace intent_id es) (histories intent_id))),
  )
