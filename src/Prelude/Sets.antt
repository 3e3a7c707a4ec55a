-- ===== src/Prelude/Sets.antt =====
-- Lists of addresses read as sets: membership as a Boolean test, and distinctness.
use victoriametrics_importer.Prelude.Tests.{◌==◌, if◌then◌else◌, Bool-cases}
use Prim.Native.Nat.{ℕ}
use mathlib.Core.Path.{◌≡◌, refl}
use mathlib.Core.Logic.{inl, inr}
use mathlib.Core.Bool.{Bool, true, false, ◌||◌}
use mathlib.Core.List.{List, [], ◌∷◌, ◌++◌}
use native.Mathlib.Omega.{arith}

abbrev pub has : ℕ → List ℕ → Bool
has a [] = false
has a (x ∷ xs) = (a == x) || has a xs

abbrev pub Distinct : List ℕ → Type 0
Distinct [] = Unit {0}
Distinct (x ∷ xs) = (has x xs ≡ false) × Distinct xs

-- Drops the first occurrence.
abbrev pub erase : ℕ → List ℕ → List ℕ
erase a [] = []
erase a (x ∷ xs) = if a == x then xs else x ∷ erase a xs

pub has_head : (a : ℕ) (xs : List ℕ) → has a (a ∷ xs) ≡ true
has_head a xs = ground arith

pub erase_head : (a : ℕ) (xs : List ℕ) → erase a (a ∷ xs) ≡ xs
erase_head a xs = ground arith

pub has-append : (a : ℕ) (xs ys : List ℕ) → has a (xs ++ ys) ≡ (has a xs || has a ys)
has-append a [] ys = refl
has-append a (x ∷ xs) ys = ground (arith, has-append a xs ys)

pub has-erase_ne : (a b : ℕ) (xs : List ℕ) → (b == a) ≡ false → has b (erase a xs) ≡ has b xs
has-erase_ne a b [] h = refl
has-erase_ne a b (x ∷ xs) h = ground (arith, has-erase_ne a b xs h)

pub has-erase_self : (a : ℕ) (xs : List ℕ) → Distinct xs → has a (erase a xs) ≡ false
has-erase_self a [] d = refl
has-erase_self a (x ∷ xs) d = ground (arith, has-erase_self a xs d.1)

pub has-erase_absent : (a b : ℕ) (xs : List ℕ) → has b xs ≡ false → has b (erase a xs) ≡ false
has-erase_absent a b [] h = refl
has-erase_absent a b (x ∷ xs) h = ground (arith, has-erase_absent a b xs)

pub has_of_erase : (a b : ℕ) (xs : List ℕ) → has b (erase a xs) ≡ true → has b xs ≡ true
has_of_erase a b [] h = h
has_of_erase a b (x ∷ xs) h = ground (arith, has_of_erase a b xs)

pub erase-Distinct : (a : ℕ) (xs : List ℕ) → Distinct xs → Distinct (erase a xs)
erase-Distinct a [] d = d
erase-Distinct a (x ∷ xs) d = ground (arith, erase-Distinct a xs d.1, has-erase_absent a x xs d.0)

pub concat-Distinct :
    (a : ℕ) (xs : List ℕ) → Distinct xs → has a xs ≡ false → Distinct (xs ++ a ∷ [])
concat-Distinct a [] d h = ground arith
concat-Distinct a (x ∷ xs) d h = ground (arith, concat-Distinct a xs d.1, has-append x xs (a ∷ []))

-- A member splits the list in two, and `erase` joins the parts.
pub record Split (a : ℕ) (xs : List ℕ) : Type 0 where
  pub before : List ℕ
  pub after : List ℕ
  pub whole : xs ≡ before ++ a ∷ after
  pub rest : erase a xs ≡ before ++ after

pub split : (a : ℕ) (xs : List ℕ) → has a xs ≡ true → Split a xs
split a [] h = absurd (cc)
split a (x ∷ xs) h = elim (Bool-cases (a == x)) [
  | inl e ↦ record { before = []; after = xs; whole = ground arith; rest = ground arith }
  | inr e ↦
      let s = split a xs (ground arith) in
      record {
        before = x ∷ s.before;
        after = s.after;
        whole = ground (arith, s.whole);
        rest = ground (arith, s.rest);
      }
]
