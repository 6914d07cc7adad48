-- ===== src/Claims/Grouping.antt =====
-- What a rebuild of the claim table leaves in it.
use mathlib.Core.List.{append-nil, append_assoc}
use leira.Prelude.{
  subst, ap, ◌≡◌, refl, ◌∙◌, sym, String, Bool, true, false, Option, none, some, List, [], ◌∷◌,
  ◌++◌, arith, ◌==◌, ◌&&◌, eq_iff, if◌then◌else◌, inl, inr, Bool-cases, Option-cases,
}
use leira.Value.{get_non_empty}
use leira.Platform.{Platform}
use leira.Table.{Table, lookup, upsert, lookup-upsert}
use leira.Ledger.{Db, LedgerEvent}
use leira.Rows.{ClaimRow}
use leira.Claims.{
  ClaimEvent, ClaimInfo, claim_of, replay_step, replay_from, replay_claim_events,
  claim_established_event_type, claim_released_event_type, has_entry,
}
use leira.Claims.Rebuild.{
  events_under, claim_row_of, active_rows, claim_entry, events_by_intent, rebuild_claim_projection,
  own_events,
}

abbrev pub Names : String → List ClaimEvent → Type 0
Names i [] = Unit
Names i (c ∷ cs) = (get_non_empty "intent_id" c.payload ≡ some i) × Names i cs

-- Distinct keys, and the events under a key name it.
abbrev pub IsGrouped : Table (List ClaimEvent) → Type 0
IsGrouped [] = Unit
IsGrouped ((i, es) ∷ rest) = Names i es × (lookup i rest ≡ none) × IsGrouped rest

abbrev pub Named : String → Option ClaimInfo → Type 0
Named i none = Unit
Named i (some a) = a.intent_id ≡ i

Names-snoc :
    (i : String) (cs : List ClaimEvent) (c : ClaimEvent)
    → Names i cs
    → get_non_empty "intent_id" c.payload ≡ some i
    → Names i (cs ++ c ∷ [])
Names-snoc i [] c names one = (one, tt)
Names-snoc i (d ∷ cs) c (first, names) one = (first, Names-snoc i cs c names one)

eq_false_sym : (i j : String) → (j == i) ≡ false → (i == j) ≡ false
eq_false_sym i j h = ground (arith, eq_iff i j, eq_iff j i)

events_under_here :
    (i j : String) (es : List ClaimEvent) (rest : Table (List ClaimEvent))
    → (j == i) ≡ true
    → events_under i ((j, es) ∷ rest) ≡ es
unfolding lookup
events_under_here i j es rest e = rw (e, lookup, events_under) refl

events_under_there :
    (i j : String) (es : List ClaimEvent) (rest : Table (List ClaimEvent))
    → (j == i) ≡ false
    → events_under i ((j, es) ∷ rest) ≡ events_under i rest
unfolding lookup
events_under_there i j es rest e = rw (e, lookup, events_under) refl

events_under-Names :
    (i : String) (g : Table (List ClaimEvent)) → IsGrouped g → Names i (events_under i g)
unfolding lookup
events_under-Names i [] grouped = tt
events_under-Names i ((j, es) ∷ rest) (names, fresh, grouped) = elim (Bool-cases (j == i)) [
  | inl e ↦
      subst (λ cs. Names i cs) (sym (events_under_here i j es rest e))
        (subst (λ k. Names k es) ((eq_iff j i).0 e) names)
  | inr e ↦
      subst (λ cs. Names i cs) (sym (events_under_there i j es rest e))
        (events_under-Names i rest grouped)
]

upsert-IsGrouped :
    (i : String) (es : List ClaimEvent) (g : Table (List ClaimEvent))
    → Names i es
    → IsGrouped g
    → IsGrouped (upsert i es g)
unfolding upsert lookup
upsert-IsGrouped i es [] names grouped = (names, refl, tt)
upsert-IsGrouped i es ((j, q) ∷ rest) names (old, fresh, grouped) = elim (Bool-cases (j == i)) [
  | inl e ↦ rw (e, upsert) (subst (λ k. Names k es) (sym ((eq_iff j i).0 e)) names, fresh, grouped)
  | inr e ↦
      rw (e, upsert)
        (
          old,
          lookup-upsert i j es rest ∙ rw (eq_false_sym i j e) fresh,
          upsert-IsGrouped i es rest names grouped,
        )
]

Named-if :
    (i : String) (b : Bool) (x y : Option ClaimInfo)
    → Named i x
    → Named i y
    → Named i (if b then x else y)
Named-if i true x y nx ny = nx
Named-if i false x y nx ny = ny

claim_of-Named :
    (i : String) (c : ClaimEvent)
    → get_non_empty "intent_id" c.payload ≡ some i
    → Named i (claim_of c)
unfolding claim_of
claim_of-Named i c one = elim (Option-cases (get_non_empty "claim_id" c.payload)) [
  | inl lost ↦
      let gone : claim_of c ≡ none = rw (lost, claim_of) refl in
      subst (λ r. Named i r) (sym gone) tt
  | inr (k, found) ↦ elim (Option-cases (get_non_empty "owner_id" c.payload)) [
    | inl lost ↦
        let gone : claim_of c ≡ none = rw (found, claim_of) (rw (lost, claim_of) refl) in
        subst (λ r. Named i r) (sym gone) tt
    | inr (o, owned) ↦
        let made : claim_of c
            ≡ some (record {
              intent_id = i;
              claim_id = k;
              owner_id = o;
              claimed_at = c.created_at;
              last_event_id = c.event_id;
            }) =
          rw (found, claim_of) (rw (owned, claim_of) (rw (one, claim_of) refl)) in
        subst (λ r. Named i r) (sym made) refl
  ]
]

replay_step-Named :
    (i : String) (active : Option ClaimInfo) (c : ClaimEvent)
    → Named i active
    → get_non_empty "intent_id" c.payload ≡ some i
    → Named i (replay_step active c)
unfolding replay_step
replay_step-Named i none c named one =
    Named-if i (c.event_type == claim_established_event_type) (claim_of c) none
      (claim_of-Named i c one) tt
replay_step-Named i (some a) c named one =
    let ends =
      c.event_type == claim_released_event_type
      && (has_entry "claim_id" a.claim_id c.payload && has_entry "owner_id" a.owner_id c.payload) in
    Named-if i (c.event_type == claim_established_event_type) (some a)
      (if ends then none else some a) named (Named-if i ends none (some a) tt named)

pub replay_from-Named :
    (i : String) (active : Option ClaimInfo) (cs : List ClaimEvent)
    → Named i active
    → Names i cs
    → Named i (replay_from active cs)
unfolding replay_from
replay_from-Named i active [] named names = named
replay_from-Named i active (c ∷ cs) named (one, names) =
    replay_from-Named i (replay_step active c) cs (replay_step-Named i active c named one) names

abbrev pub row_if : Option ClaimInfo → Option ClaimRow
row_if none = none
row_if (some a) = some (claim_row_of a)

pub active_rows_gone :
    (j : String) (es : List ClaimEvent) (rest : Table (List ClaimEvent))
    → replay_claim_events es ≡ none
    → active_rows ((j, es) ∷ rest) ≡ active_rows rest
unfolding active_rows
active_rows_gone j es rest gone = rw (gone, active_rows) refl

pub active_rows_left :
    (j : String) (es : List ClaimEvent) (rest : Table (List ClaimEvent)) (a : ClaimInfo)
    → replay_claim_events es ≡ some a
    → active_rows ((j, es) ∷ rest) ≡ (a.intent_id, claim_row_of a) ∷ active_rows rest
unfolding active_rows
active_rows_left j es rest a left = rw (left, active_rows) refl

lookup-cons :
    (i j : String) (r : ClaimRow) (rest : Table ClaimRow)
    → lookup i ((j, r) ∷ rest) ≡ (if j == i then some r else lookup i rest)
unfolding lookup
lookup-cons i j r rest = refl

abbrev row_under : String → Table (List ClaimEvent) → Option ClaimRow
row_under i g = row_if (replay_claim_events (events_under i g))

lookup-active_rows :
    (i : String) (g : Table (List ClaimEvent))
    → IsGrouped g
    → lookup i (active_rows g) ≡ row_if (replay_claim_events (events_under i g))
unfolding active_rows lookup replay_claim_events replay_from
lookup-active_rows i [] grouped = refl
lookup-active_rows i ((j, es) ∷ rest) (names, fresh, grouped) =
    let after = lookup-active_rows i rest grouped in
    let whose = replay_from-Named j none es tt names in
    let here : (j == i) ≡ true → row_under i ((j, es) ∷ rest) ≡ row_if (replay_claim_events es) =
      λ e. ap (λ cs. row_if (replay_claim_events cs)) (events_under_here i j es rest e) in
    let there : (j == i) ≡ false → row_under i ((j, es) ∷ rest) ≡ row_under i rest =
      λ e. ap (λ cs. row_if (replay_claim_events cs)) (events_under_there i j es rest e) in
    elim (Option-cases (replay_claim_events es)) [
      | inl gone ↦
          ap (λ t. lookup i t) (active_rows_gone j es rest gone)
          ∙ after
          ∙ elim (Bool-cases (j == i)) [
            | inl e ↦
                let lost : lookup i rest ≡ none =
                  subst (λ k. lookup k rest ≡ none) ((eq_iff j i).0 e) fresh in
                let empty : events_under i rest ≡ [] = rw (lost, events_under) refl in
                ap (λ cs. row_if (replay_claim_events cs)) empty ∙ sym (here e ∙ ap row_if gone)
            | inr e ↦ sym (there e)
          ]
      | inr (a, left) ↦
          let its : a.intent_id ≡ j = subst (λ r. Named j r) left whose in
          ap (λ t. lookup i t) (active_rows_left j es rest a left)
          ∙ lookup-cons i a.intent_id (claim_row_of a) (active_rows rest)
          ∙ rw (its) (elim (Bool-cases (j == i)) [
            | inl e ↦ rw (e) (sym (here e ∙ ap row_if left))
            | inr e ↦ rw (e) (after ∙ sym (there e))
          ])
    ]

events_under-upsert :
    (i j : String) (es : List ClaimEvent) (g : Table (List ClaimEvent))
    → events_under i (upsert j es g) ≡ (if j == i then es else events_under i g)
events_under-upsert i j es g = elim (Bool-cases (j == i)) [
  | inl e ↦
      let found : lookup i (upsert j es g) ≡ some es = lookup-upsert j i es g ∙ rw (e) refl in
      rw (e) (rw (found, events_under) refl)
  | inr e ↦
      let same : lookup i (upsert j es g) ≡ lookup i g = lookup-upsert j i es g ∙ rw (e) refl in
      rw (e) (rw (same, events_under) refl)
]

module _ {Text : Type 0} (P : Platform Text) where
  claim_entry-Names :
      (e : LedgerEvent Text) (i : String) (c : ClaimEvent)
      → claim_entry P e ≡ some (i, c)
      → get_non_empty "intent_id" c.payload ≡ some i
  unfolding claim_entry
  claim_entry-Names e i c h = ground arith

  pub events_by_intent-IsGrouped :
      (g : Table (List ClaimEvent)) (es : List (LedgerEvent Text))
      → IsGrouped g
      → IsGrouped (events_by_intent P g es)
  unfolding events_by_intent
  events_by_intent-IsGrouped g [] grouped = grouped
  events_by_intent-IsGrouped g (e ∷ es) grouped = elim (Option-cases (claim_entry P e)) [
    | inl other ↦ rw (other, events_by_intent) (events_by_intent-IsGrouped g es grouped)
    | inr ((i, c), entry) ↦
        rw (entry, events_by_intent)
          (events_by_intent-IsGrouped (upsert i (events_under i g ++ c ∷ []) g) es (
            upsert-IsGrouped i (events_under i g ++ c ∷ []) g
              (Names-snoc i (events_under i g) c (events_under-Names i g grouped)
                (claim_entry-Names e i c entry))
              grouped))
  ]

  events_under-by_intent :
      (i : String) (g : Table (List ClaimEvent)) (es : List (LedgerEvent Text))
      → events_under i (events_by_intent P g es) ≡ events_under i g ++ own_events P i es
  unfolding events_by_intent own_events lookup
  events_under-by_intent i g [] = sym (append-nil (events_under i g))
  events_under-by_intent i g (e ∷ es) = elim (Option-cases (claim_entry P e)) [
    | inl other ↦ rw (other, events_by_intent, own_events) (events_under-by_intent i g es)
    | inr ((j, c), entry) ↦
        rw (entry, events_by_intent, own_events)
          (events_under-by_intent i (upsert j (events_under j g ++ c ∷ []) g) es
            ∙ elim (Bool-cases (j == i)) [
              | inl e ↦
                  let same : j ≡ i = (eq_iff j i).0 e in
                  rw (events_under-upsert i j (events_under j g ++ c ∷ []) g) (
                    rw (e)
                      (rw (same) (append_assoc (events_under i g) (c ∷ []) (own_events P i es))))
              | inr e ↦ rw (events_under-upsert i j (events_under j g ++ c ∷ []) g) (rw (e) refl)
            ])
  ]

  -- The rebuilt table has for each intent the claim that is left by replaying the intent's own claim
  -- rows in the order of the ledger, and no row if none is left, whatever the table held before. It
  -- is assumed that the transaction does not fail.
  pub lookup-rebuild_claim_projection :
      (intent_id : String) (db : Db Text)
      → P.fails db.tick ≡ false
      → lookup intent_id (rebuild_claim_projection P db).claim_rows
        ≡ row_if (replay_claim_events (own_events P intent_id db.events))
  unfolding rebuild_claim_projection lookup
  lookup-rebuild_claim_projection intent_id db works =
      rw (works, rebuild_claim_projection)
        (lookup-active_rows intent_id (events_by_intent P [] db.events)
            (events_by_intent-IsGrouped [] db.events tt)
          ∙ ap (λ cs. row_if (replay_claim_events cs))
              (events_under-by_intent intent_id [] db.events))
