-- ===== src/Projection/Rebuild.antt =====
-- What the rebuilt table holds, and that the table kept live agrees with it.
use leira.Prelude.{
  ◌+◌, all, not, ◌||◌, Bool-cases, ◌≡◌, refl, String, Bool, true, false, Option, none, some, List,
  [], ◌∷◌, ◌++◌, arith, ◌==◌, ◌&&◌, contains, keep, last, last-cons, if◌then◌else◌, inl, inr,
  Option-cases,
}
use leira.Platform.{Platform}
use leira.Table.{Table, lookup, lookup-upsert}
use leira.Ledger.{Db, LedgerEvent}
use leira.Rows.{RunRow}
use leira.Projection.{
  run_lifecycle_event_types, payload_run_id, row_of, rebuild_step, rebuild_from, rebuild_projection,
  is_readable,
}

-- `o == some s`
abbrev pub is_text : Option String → String → Bool
is_text none s = false
is_text (some t) s = t == s

module _ {Text : Type 0} (P : Platform Text) where
  -- A lifecycle event whose payload names the run.
  abbrev pub owns : String → LedgerEvent Text → Bool
  owns run_id e =
      contains run_lifecycle_event_types e.event_type && is_text (payload_run_id P e) run_id

  lookup-rebuild_step :
      (run_id : String) (e : LedgerEvent Text) (rows : Table RunRow)
      → lookup run_id (rebuild_step P e rows)
        ≡ (if owns run_id e then some (row_of e) else lookup run_id rows)
  unfolding rebuild_step
  lookup-rebuild_step run_id e rows = elim (Option-cases (payload_run_id P e)) [
    | inl none_given ↦ ground arith
    | inr (j, given) ↦ ground (arith, lookup-upsert j run_id (row_of e) rows)
  ]

  pub lookup-rebuild_from :
      (run_id : String) (rows : Table RunRow) (es : List (LedgerEvent Text))
      → lookup run_id (rebuild_from P rows es) ≡ (elim (last (keep (owns run_id) es)) [
        | none ↦ lookup run_id rows
        | some e ↦ some (row_of e)
      ])
  unfolding rebuild_from
  lookup-rebuild_from run_id rows [] = refl
  lookup-rebuild_from run_id rows (e ∷ es) = ground (
    arith,
    lookup-rebuild_from run_id (rebuild_step P e rows) es,
    lookup-rebuild_step run_id e rows,
    last-cons e (keep (owns run_id) es),
  )

  -- What a call of `rebuild_projection` that returned did.
  pub rebuild_projection-returned :
      (db : Db Text)
      → (rebuild_projection P db).0 ≡ true
      → (rebuild_projection P db).1
        ≡ record db { run_states = rebuild_from P [] db.events; tick = db.tick + 1 }
  unfolding rebuild_projection
  rebuild_projection-returned db returned =
      elim (Bool-cases (P.fails db.tick || not (all (is_readable P) db.events))) [
        | inl bad ↦ absurd (cc (rw (bad, rebuild_projection) at returned))
        | inr fine ↦ rw (fine, rebuild_projection) refl
      ]

  pub rebuild_from-snoc :
      (rows : Table RunRow) (es : List (LedgerEvent Text)) (e : LedgerEvent Text)
      → rebuild_from P rows (es ++ e ∷ []) ≡ rebuild_step P e (rebuild_from P rows es)
  unfolding rebuild_from
  rebuild_from-snoc rows [] e = refl
  rebuild_from-snoc rows (x ∷ es) e = rebuild_from-snoc (rebuild_step P x rows) es e
