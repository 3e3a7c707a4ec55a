-- ===== src/InternalMetrics/Table/Ids.antt =====
-- Tables whose ids are distinct, as the keys of a map are.
use Prim.Native.String.{String}
use text.Mathlib.Text.{◌==◌ as str_eq}
use text.Mathlib.TextEquality.{eq_iff}
use victoriametrics_importer.Prelude.{
  ℕ, ◌≡◌, refl, sym, ap, ◌∙◌, false, none, some, [], ◌∷◌, if◌then◌else◌, Bool-cases, inl, inr,
}
use victoriametrics_importer.InternalMetrics.Table.{
  Row, Table, lookup, insert, copy_row, row_or_new, snap_table,
}
use victoriametrics_importer.InternalMetrics.Table.Snapshot.{lookup-insert}

-- Distinct ids.
unfoldable pub IsIds : Table → Type 0
IsIds [] = Unit
IsIds ((id, row) ∷ rest) = (lookup id rest ≡ none) × IsIds rest

pub str_eq-flip : (a b : String) → str_eq a b ≡ false → str_eq b a ≡ false
str_eq-flip a b e = elim (Bool-cases (str_eq b a)) [
  | inl h ↦ absurd (cc (e, (eq_iff a b).1 (sym ((eq_iff b a).0 h))))
  | inr h ↦ h
]

pub IsIds-insert : (id : String) (row : Row) (t : Table) → IsIds t → IsIds (insert id row t)
unfolding IsIds insert
IsIds-insert id row [] i = (unfold lookup in refl, tt)
IsIds-insert id row ((k, old) ∷ rest) (fresh, i) = elim (Bool-cases (str_eq id k)) [
  | inl e ↦ rw e (fresh, i)
  | inr e ↦
      let gone =
        lookup-insert k id row rest
        ∙ ap (λ b. if b then some row else lookup k rest) (str_eq-flip id k e)
        ∙ fresh in
      rw e (gone, IsIds-insert id row rest i)
]

pub IsIds-snap_table : (len : ℕ) (from to : Table) → IsIds to → IsIds (snap_table len from to)
unfolding snap_table
IsIds-snap_table len [] to i = i
IsIds-snap_table len ((id, row) ∷ rest) to i =
    let now = copy_row (row_or_new len (lookup id to)) row in
    IsIds-snap_table len rest (insert id now to) (IsIds-insert id now to i)
