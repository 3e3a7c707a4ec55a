-- ===== src/Pool/Lists.antt =====
-- What the pool does with its list: updates in place, and the move to the tail.
use victoriametrics_importer.Prelude.{
  ◌≡◌, refl, subst, ◌∙◌, true, Option, none, some, List, [], ◌∷◌, ◌++◌, arith,
}
use victoriametrics_importer.Prelude.Sets.{has, Distinct, erase, has-erase_self}
use victoriametrics_importer.EndpointList.{Ptr, Endpoint, Dll, update, remove}
use victoriametrics_importer.EndpointList.Seg.{last, Seg-same}
use victoriametrics_importer.EndpointList.Refine.{
  Rep, SamePayload, last_mem, add_to_tail-Rep, add_to_tail-SamePayload, remove-Rep,
  remove-SamePayload,
}
use victoriametrics_importer.Pool.{modify, same_ptr, to_tail}

-- An update that leaves the links alone.
pub modify-Rep :
    (ep : Ptr) (f : Endpoint → Endpoint) (s : Dll) (xs : List Ptr)
    → ((e : Endpoint) → ((f e).prev ≡ e.prev) × ((f e).next ≡ e.next))
    → Rep s xs
    → Rep (modify ep f s) xs
modify-Rep ep f s xs keep r = record {
  head = r.head;
  tail = r.tail;
  chain =
      Seg-same s.mem (update s.mem ep f) none xs none (λ a i. ground (arith, keep (s.mem a)))
        r.chain;
  distinct = r.distinct;
}

pub to_tail-Rep :
    (ep : Ptr) (xs : List Ptr) (s : Dll)
    → has ep xs ≡ true
    → Rep s xs
    → Rep (to_tail ep s) (erase ep xs ++ ep ∷ [])
to_tail-Rep ep xs s h r =
    add_to_tail-Rep ep (erase ep xs) (remove ep s) (has-erase_self ep xs r.distinct)
      (remove-Rep ep xs s h r).0

pub to_tail-SamePayload : (ep : Ptr) (s : Dll) → SamePayload s (to_tail ep s)
to_tail-SamePayload ep s a = add_to_tail-SamePayload ep (remove ep s) a ∙ remove-SamePayload ep s a

alone : (x : Ptr) (xs : List Ptr) → Distinct (x ∷ xs) → last (some x) xs ≡ some x → xs ≡ []
alone x [] d e = refl
alone x (y ∷ xs) d e = absurd (ground (arith, last_mem y xs x e))

-- Head and tail are the same endpoint only in a list of one, which the move leaves as it is.
pub single :
    (ep : Ptr) (xs : List Ptr) (s : Dll)
    → has ep xs ≡ true
    → Rep s xs
    → same_ptr s.head s.tail ≡ true
    → erase ep xs ++ ep ∷ [] ≡ xs
single ep [] s h r e = absurd (cc)
single ep (x ∷ xs) s h r e =
    let end : same_ptr (some x) (last (some x) xs) ≡ true =
      subst (λ o. same_ptr o (last (some x) xs) ≡ true) r.head
        (subst (λ o. same_ptr s.head o ≡ true) r.tail e) in
    let nil = alone x xs r.distinct (same_ptr-eq x (last (some x) xs) end) in ground (arith, nil)
  where
    same_ptr-eq : (a : Ptr) (o : Option Ptr) → same_ptr (some a) o ≡ true → o ≡ some a
    same_ptr-eq a none q = absurd (cc)
    same_ptr-eq a (some b) q = ground arith
