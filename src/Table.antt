-- ===== src/Table.antt =====
-- A projection table of SQLite: rows under a text primary key.
use leira.Prelude.{
  ◌≡◌, refl, ◌∙◌, String, true, false, Option, none, some, List, [], ◌∷◌, arith, ◌==◌, eq_iff,
  if◌then◌else◌,
}

abbrev pub Table : Type 0 → Type 0
Table R = List (String × R)

module _ {R : Type 0} where
  -- SELECT … WHERE key = ?
  unfoldable pub lookup : String → Table R → Option R
  lookup k [] = none
  lookup k ((j, r) ∷ rest) = if j == k then some r else lookup k rest

  -- INSERT … ON CONFLICT(key) DO UPDATE
  unfoldable pub upsert : String → R → Table R → Table R
  upsert k r [] = (k, r) ∷ []
  upsert k r ((j, q) ∷ rest) = if j == k then (j, r) ∷ rest else (j, q) ∷ upsert k r rest

  -- DELETE … WHERE key = ?
  unfoldable pub delete : String → Table R → Table R
  delete k [] = []
  delete k ((j, r) ∷ rest) =
      let others = delete k rest in if j == k then others else (j, r) ∷ others

  pub lookup-upsert :
      (k j : String) (r : R) (t : Table R)
      → lookup j (upsert k r t) ≡ (if k == j then some r else lookup j t)
  unfolding lookup upsert
  lookup-upsert k j r [] = refl
  lookup-upsert k j r ((i, q) ∷ t) =
      ground (arith, eq_iff k j, eq_iff i k, eq_iff i j, lookup-upsert k j r t)

  pub lookup-upsert_own :
      (k j : String) (r : R) (t : Table R) → (k == j) ≡ true → lookup j (upsert k r t) ≡ some r
  lookup-upsert_own k j r t same = lookup-upsert k j r t ∙ rw (same) refl

  pub lookup-upsert_apart :
      (k j : String) (r : R) (t : Table R) → (k == j) ≡ false → lookup j (upsert k r t) ≡ lookup j t
  lookup-upsert_apart k j r t apart = lookup-upsert k j r t ∙ rw (apart) refl

  pub lookup-delete :
      (k j : String) (t : Table R) → lookup j (delete k t) ≡ (if k == j then none else lookup j t)
  unfolding lookup delete
  lookup-delete k j [] = ground arith
  lookup-delete k j ((i, q) ∷ t) =
      ground (arith, eq_iff k j, eq_iff i k, eq_iff i j, lookup-delete k j t)

pub ruleset table_laws = (lookup-upsert, lookup-delete)
