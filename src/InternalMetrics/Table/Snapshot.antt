-- ===== src/InternalMetrics/Table/Snapshot.antt =====
-- What a snapshot of a table holds.
use Prim.Native.String.{String}
use mathlib.Core.Option.{some_inj}
use text.Mathlib.Text.{◌==◌ as str_eq}
use text.Mathlib.TextEquality.{eq_iff}
use victoriametrics_importer.Prelude.{
  ℕ, ◌+◌, ◌%◌, ◌^◌, ◌<◌, ◌≤◌, ◌++◌, drop, ◌≡◌, refl, sym, ap, subst, ◌∙◌, true, false, Option, none,
  some, [], ◌∷◌, if◌then◌else◌, length, length-replicate, get_or, arith, Bool-cases, inl, inr,
}
use victoriametrics_importer.InternalMetrics.Table.{
  Row, Table, lookup, insert, copy_row, row_or_new, snap_table, delta,
}

str_eq-same : (id k k2 : String) → str_eq k k2 ≡ true → str_eq id k ≡ str_eq id k2
str_eq-same id k k2 h = ap (str_eq id) ((eq_iff k k2).0 h)

str_eq-other : (id k k2 : String) → str_eq k k2 ≡ false → str_eq id k ≡ true → str_eq id k2 ≡ false
str_eq-other id k k2 h e = subst (λ x. str_eq x k2 ≡ false) (sym ((eq_iff id k).0 e)) h

pub lookup-insert :
    (id k : String) (row : Row) (t : Table)
    → lookup id (insert k row t) ≡ (if str_eq id k then some row else lookup id t)
unfolding lookup insert
lookup-insert id k row [] = refl
lookup-insert id k row ((k2, old) ∷ rest) =
    let ih = lookup-insert id k row rest in
    elim (Bool-cases (str_eq k k2)) [
      | inl e ↦ elim (Bool-cases (str_eq id k)) [
        | inl g ↦ simp (e, g, sym (str_eq-same id k k2 e) ∙ g)
        | inr m ↦ simp (e, m, sym (str_eq-same id k k2 e) ∙ m)
      ]
      | inr n ↦ elim (Bool-cases (str_eq id k)) [
        | inl e ↦ simp (n, ih, e, str_eq-other id k k2 n e)
        | inr m ↦ simp (n, ih, m)
      ]
    ]

-- Distinct ids, each with a row of `len` counters.
unfoldable pub IsTable : (len : ℕ) → Table → Type 0
IsTable len [] = Unit
IsTable len ((id, row) ∷ rest) = (length row ≡ len) × ((lookup id rest ≡ none) × IsTable len rest)

pub IsWide : (len : ℕ) → Table → Type 0
IsWide len t = (id : String) (row : Row) → lookup id t ≡ some row → length row ≡ len

pub copy_row_all : (to from : Row) → length to ≡ length from → copy_row to from ≡ from
unfolding copy_row
copy_row_all [] [] h = refl
copy_row_all [] (f ∷ fs) h = absurd (omega (arith, h))
copy_row_all (t ∷ ts) [] h = absurd (omega (arith, h))
copy_row_all (t ∷ ts) (f ∷ fs) h = ap (λ r. f ∷ r) (copy_row_all ts fs (omega (arith, h)))

pub copy_row-drop :
    (to from : Row) → length from ≤ length to → copy_row to from ≡ from ++ drop (length from) to
unfolding copy_row
copy_row-drop [] [] h = refl
copy_row-drop [] (f ∷ fs) h = absurd (omega (arith, h))
copy_row-drop (t ∷ ts) [] h = refl
copy_row-drop (t ∷ ts) (f ∷ fs) h = ap (λ r. f ∷ r) (copy_row-drop ts fs (omega (arith, h)))

copied :
    (len : ℕ) (o : Option Row) (row : Row)
    → ((old : Row) → o ≡ some old → length old ≡ len)
    → length row ≡ len
    → copy_row (row_or_new len o) row ≡ row
copied len none row w h = copy_row_all _ row (length-replicate len 0 ∙ sym h)
copied len (some old) row w h = copy_row_all old row (w old refl ∙ sym h)

IsWide-insert :
    (len : ℕ) (id : String) (row : Row) (t : Table)
    → length row ≡ len
    → IsWide len t
    → IsWide len (insert id row t)
unfolding IsWide
IsWide-insert len id row t h w k r e = elim (Bool-cases (str_eq k id)) [
  | inl g ↦
      let q = sym (lookup-insert k id row t ∙ ap (λ b. if b then some row else lookup k t) g) ∙ e in
      subst (λ x. length x ≡ len) (some_inj.0 q) h
  | inr n ↦
      w k r (sym (lookup-insert k id row t ∙ ap (λ b. if b then some row else lookup k t) n) ∙ e)
]

-- The row that the first has, or else that of the second.
abbrev pub or_else : Option Row → Option Row → Option Row
or_else none o = o
or_else (some r) o = some r

pub lookup-snap_table :
    (len : ℕ) (id : String) (from to : Table)
    → IsTable len from
    → IsWide len to
    → lookup id (snap_table len from to) ≡ or_else (lookup id from) (lookup id to)
unfolding snap_table lookup IsTable IsWide
lookup-snap_table len id [] to f w = refl
lookup-snap_table len id ((k, row) ∷ rest) to (h, (fresh, f)) w =
    let c = copied len (lookup k to) row (w k) h in
    let ih = lookup-snap_table len id rest (insert k row to) f (IsWide-insert len k row to h w) in
    let q = lookup-insert id k row to in
    elim (Bool-cases (str_eq id k)) [
      | inl e ↦
          let gone : lookup id rest ≡ none = ap (λ x. lookup x rest) ((eq_iff id k).0 e) ∙ fresh in
          simp (c, ih, q, e, gone)
      | inr n ↦ simp (c, ih, q, n)
    ]

IsWide-of_table : (len : ℕ) (t : Table) → IsTable len t → IsWide len t
unfolding IsTable IsWide lookup
IsWide-of_table len [] i id row e = cc
IsWide-of_table len ((k, r) ∷ rest) (h, (fresh, i)) id row e = elim (Bool-cases (str_eq id k)) [
  | inl g ↦
      let q = sym (ap (λ b. if b then some r else lookup id rest) g) ∙ e in
      subst (λ x. length x ≡ len) (some_inj.0 q) h
  | inr n ↦
      IsWide-of_table len rest i id row (sym (ap (λ b. if b then some r else lookup id rest) n) ∙ e)
]

or_else-wide :
    (len : ℕ) (o p : Option Row) (row : Row)
    → (o ≡ some row → length row ≡ len)
    → (p ≡ some row → length row ≡ len)
    → or_else o p ≡ some row
    → length row ≡ len
or_else-wide len none p row f g e = g e
or_else-wide len (some r) p row f g e = f e

pub snap_table-IsWide :
    (len : ℕ) (from to : Table)
    → IsTable len from
    → IsWide len to
    → IsWide len (snap_table len from to)
unfolding IsWide
snap_table-IsWide len from to f w id row e =
    or_else-wide len (lookup id from) (lookup id to) row (IsWide-of_table len from f id row)
      (w id row) (sym (lookup-snap_table len id from to f w) ∙ e)

abbrev pub value_of : ℕ → Option Row → ℕ
value_of i none = 0
value_of i (some row) = get_or row i 0

-- A delta added to the value before gives the value now.
pub value_of-delta :
    (i : ℕ) (row : Row) (o : Option Row)
    → get_or row i 0 < 2 ^ 64
    → value_of i o < 2 ^ 64
    → (value_of i o + delta i row o) % 2 ^ 64 ≡ get_or row i 0
unfolding delta
value_of-delta i row none h g = omega (arith, h)
value_of-delta i row (some old) h g = omega (arith, h, g)

pub lookup-empty : (id : String) → lookup id [] ≡ none
unfolding lookup
lookup-empty id = refl

pub IsWide-empty : (len : ℕ) → IsWide len []
unfolding IsWide lookup
IsWide-empty len id row e = cc
