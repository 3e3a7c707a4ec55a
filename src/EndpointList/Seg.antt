-- ===== src/EndpointList/Seg.antt =====
-- Chains of endpoints in the store, and what they survive.
use victoriametrics_importer.Prelude.{
  ◌≡◌, refl, sym, ◌∙◌, true, false, ◌||◌, Option, none, some, List, [], ◌∷◌, ◌++◌, arith, ◌==◌,
}
use victoriametrics_importer.Prelude.Sets.{has, Distinct, has-append}
use victoriametrics_importer.EndpointList.{Ptr, Store}

-- The first address of `xs`, or `nx` if there is none.
abbrev pub first : List Ptr → Option Ptr → Option Ptr
first [] nx = nx
first (x ∷ xs) nx = some x

-- The last address of `xs`, or `pr` if there is none.
abbrev pub last : Option Ptr → List Ptr → Option Ptr
last pr [] = pr
last pr (x ∷ xs) = last (some x) xs

-- The endpoints `xs` are linked both ways, between the neighbours `pr` and `nx`.
abbrev pub Seg : Store → Option Ptr → List Ptr → Option Ptr → Type 0
Seg mem pr [] nx = Unit {0}
Seg mem pr (x ∷ xs) nx = ((mem x).prev ≡ pr) × ((mem x).next ≡ first xs nx) × Seg mem (some x) xs nx

pub last-append : (pr : Option Ptr) (xs ys : List Ptr) → last pr (xs ++ ys) ≡ last (last pr xs) ys
last-append pr [] ys = refl
last-append pr (x ∷ xs) ys = last-append (some x) xs ys

pub first-append :
    (xs ys : List Ptr) (nx : Option Ptr) → first (xs ++ ys) nx ≡ first xs (first ys nx)
first-append [] ys nx = refl
first-append (x ∷ xs) ys nx = refl

pub Seg-append :
    (mem : Store) (pr : Option Ptr) (xs ys : List Ptr) (nx : Option Ptr)
    → Seg mem pr xs (first ys nx)
    → Seg mem (last pr xs) ys nx
    → Seg mem pr (xs ++ ys) nx
Seg-append mem pr [] ys nx s t = t
Seg-append mem pr (x ∷ xs) ys nx s t =
    (s.0, s.1 ∙ sym (first-append xs ys nx), Seg-append mem (some x) xs ys nx s.2 t)

pub Seg-left :
    (mem : Store) (pr : Option Ptr) (xs ys : List Ptr) (nx : Option Ptr)
    → Seg mem pr (xs ++ ys) nx
    → Seg mem pr xs (first ys nx)
Seg-left mem pr [] ys nx s = tt
Seg-left mem pr (x ∷ xs) ys nx s =
    (s.0, s.1 ∙ first-append xs ys nx, Seg-left mem (some x) xs ys nx s.2)

pub Seg-right :
    (mem : Store) (pr : Option Ptr) (xs ys : List Ptr) (nx : Option Ptr)
    → Seg mem pr (xs ++ ys) nx
    → Seg mem (last pr xs) ys nx
Seg-right mem pr [] ys nx s = s
Seg-right mem pr (x ∷ xs) ys nx s = Seg-right mem (some x) xs ys nx s.2

-- Both links are as before at every address of `xs`.
abbrev pub SameLinks : List Ptr → Store → Store → Type 0
SameLinks xs m m' =
    (a : Ptr) → has a xs ≡ true → ((m' a).prev ≡ (m a).prev) × ((m' a).next ≡ (m a).next)

pub Seg-same :
    (m m' : Store) (pr : Option Ptr) (xs : List Ptr) (nx : Option Ptr)
    → SameLinks xs m m'
    → Seg m pr xs nx
    → Seg m' pr xs nx
Seg-same m m' pr [] nx same s = tt
Seg-same m m' pr (x ∷ xs) nx same s =
    let here = same x (ground arith) in
    (here.0 ∙ s.0, here.1 ∙ s.1, Seg-same m m' (some x) xs nx (λ a i. same a (ground arith)) s.2)

-- The link out of the last endpoint, if there is one, now leads to `nx'`.
abbrev pub LastNext : Option Ptr → Option Ptr → Store → Type 0
LastNext none nx m = Unit {0}
LastNext (some l) nx m = (m l).next ≡ nx

last-has : (a b : Ptr) (xs : List Ptr) → last (some b) xs ≡ some a → (a == b || has a xs) ≡ true
last-has a b [] e = ground arith
last-has a b (x ∷ xs) e = ground (arith, last-has a x xs e)

pub Seg-relink :
    (m m' : Store) (pr : Option Ptr) (xs : List Ptr) (nx nx' : Option Ptr)
    → Distinct xs
    → ((a : Ptr) → has a xs ≡ true → (m' a).prev ≡ (m a).prev)
    → ((a : Ptr) → has a xs ≡ true → (last pr xs ≡ some a → ⊥) → (m' a).next ≡ (m a).next)
    → LastNext (last pr xs) nx' m'
    → Seg m pr xs nx
    → Seg m' pr xs nx'
Seg-relink m m' pr [] nx nx' d ps ns e s = tt
Seg-relink m m' pr (x ∷ []) nx nx' d ps ns e s = (ps x (ground arith) ∙ s.0, e, tt)
Seg-relink m m' pr (x ∷ y ∷ xs) nx nx' d ps ns e s = (
  ps x (ground arith) ∙ s.0,
  ns x (ground arith) (λ l. absurd (ground (arith, last-has x y xs l))) ∙ s.1,
  Seg-relink m m' (some x) (y ∷ xs) nx nx' d.1 (λ a i. ps a (ground arith))
      (λ a i. ns a (ground arith)) e s.2,
)

-- The link back from the first endpoint, if there is one, now leads to `pr`.
abbrev pub FirstPrev : Option Ptr → Option Ptr → Store → Type 0
FirstPrev none pr m = Unit {0}
FirstPrev (some f) pr m = (m f).prev ≡ pr

pub Seg-reprev :
    (m m' : Store) (pr pr' : Option Ptr) (xs : List Ptr) (nx : Option Ptr)
    → Distinct xs
    → ((a : Ptr) → has a xs ≡ true → (m' a).next ≡ (m a).next)
    → ((a : Ptr) → has a xs ≡ true → (first xs none ≡ some a → ⊥) → (m' a).prev ≡ (m a).prev)
    → FirstPrev (first xs none) pr' m'
    → Seg m pr xs nx
    → Seg m' pr' xs nx
Seg-reprev m m' pr pr' [] nx d ns ps e s = tt
Seg-reprev m m' pr pr' (x ∷ xs) nx d ns ps e s = (
  e,
  ns x (ground arith) ∙ s.1,
  Seg-same m m' (some x) xs nx
      (λ a i. (ps a (ground arith) (λ q. ground arith), ns a (ground arith))) s.2,
)

pub Distinct-left : (xs ys : List Ptr) → Distinct (xs ++ ys) → Distinct xs
Distinct-left [] ys d = tt
Distinct-left (x ∷ xs) ys d = ground (arith, has-append x xs ys, Distinct-left xs ys d.1)

pub Distinct-right : (xs ys : List Ptr) → Distinct (xs ++ ys) → Distinct ys
Distinct-right [] ys d = d
Distinct-right (x ∷ xs) ys d = Distinct-right xs ys d.1

pub Distinct-apart :
    (a : Ptr) (xs ys : List Ptr) → Distinct (xs ++ ys) → has a xs ≡ true → has a ys ≡ false
Distinct-apart a [] ys d h = absurd (cc)
Distinct-apart a (x ∷ xs) ys d h = ground (arith, has-append x xs ys, Distinct-apart a xs ys d.1)
