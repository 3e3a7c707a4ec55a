-- ===== src/EndpointList/HeadBug.antt =====
-- AddToHead on a list that is not empty: the link back from the old head.
use victoriametrics_importer.Prelude.{◌≡◌, false, none, some, List, ◌∷◌, arith}
use victoriametrics_importer.Prelude.Sets.{has}
use victoriametrics_importer.EndpointList.{Ptr, Dll, insert, add_to_head}
use victoriametrics_importer.EndpointList.Refine.{Rep}

-- The new head leads to the old one, which still has no link back.
pub add_to_head-one_way :
    (p x : Ptr) (xs : List Ptr) (s : Dll)
    → has p (x ∷ xs) ≡ false
    → Rep s (x ∷ xs)
    → (((add_to_head p s).mem p).next ≡ some x) × (((add_to_head p s).mem x).prev ≡ none)
unfolding add_to_head insert
add_to_head-one_way p x xs s fresh r = rw r.head (ground (arith, r.chain))

-- Where the list consists of distinct endpoints linked both ways, and is not empty, AddToHead of
-- one that is not among them does not leave such a list of it and the old ones.
pub add_to_head-not-Rep :
    (p x : Ptr) (xs : List Ptr) (s : Dll)
    → has p (x ∷ xs) ≡ false
    → Rep s (x ∷ xs)
    → ¬ Rep (add_to_head p s) (p ∷ x ∷ xs)
add_to_head-not-Rep p x xs s fresh r bad =
    let (_, back) = add_to_head-one_way p x xs s fresh r in cc (back, bad.chain.2.0)
