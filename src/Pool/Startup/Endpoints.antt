-- ===== src/Pool/Startup/Endpoints.antt =====
-- The endpoints of a new pool: the URL and the threshold of each, by its address.
use Prim.Native.String.{String}
use text.Mathlib.Text.{◌==◌ as str_eq}
use victoriametrics_importer.Prelude.{
  suc, ◌<◌, ◌≡◌, refl, sym, ap, ap₂, ◌∙◌, Bool, true, false, ◌==◌, Option, none, some, List, [],
  ◌∷◌, length, map, if◌then◌else◌, arith,
}
use mathlib.Core.Option.{some_inj}
use victoriametrics_importer.Prelude.Int.{ℤ, pos, ltb_ℤ}
use victoriametrics_importer.EndpointList.{Ptr, Endpoint, update}
use victoriametrics_importer.EndpointList.Refine.{add_to_tail-SamePayload}
use victoriametrics_importer.Pool.{Pool, modify, revive, move_by, move_to_healthy}
use victoriametrics_importer.Pool.Invariant.{update_self, update_other, at_or_other}
use victoriametrics_importer.Pool.Startup.{
  EndpointConfig, url_default, complete, new_http_endpoint, allocate, add_endpoints, addresses,
  or_else,
}

-- What an endpoint was configured with.
abbrev pub setting : Endpoint → String × ℤ
setting ep = (ep.url, ep.mark_unhealthy_threshold)

-- The first threshold that is positive, or else 1.
abbrev pub first_positive : List ℤ → ℤ
first_positive [] = pos 1
first_positive (t ∷ ts) = if ltb_ℤ (pos 0) t then t else first_positive ts

-- What a configuration asks for: its URL, the default one if it has none, and its threshold, or else
-- that of the pool.
abbrev pub wanted : (pool_threshold : ℤ) → EndpointConfig → String × ℤ
wanted t cfg = (
  (if str_eq cfg.url "" then url_default else cfg.url),
  first_positive (cfg.mark_unhealthy_threshold ∷ t ∷ []),
)

made_by : (b : Bool) (made ep : Endpoint) → (if b then some made else none) ≡ some ep → made ≡ ep
made_by true made ep e = some_inj.0 e
made_by false made ep e = absurd (cc e)

setting-new_http_endpoint :
    (parses : String → Bool) (t : ℤ) (cfg : EndpointConfig) (ep : Endpoint)
    → new_http_endpoint parses (complete t cfg) ≡ some ep
    → setting ep ≡ wanted t cfg
unfolding new_http_endpoint complete
setting-new_http_endpoint parses t cfg ep e =
    ap setting (sym (made_by (parses (complete t cfg).url) _ ep e))
    ∙ ap (λ n. ((complete t cfg).url, n)) (chosen cfg.mark_unhealthy_threshold)
  where
    chosen : (c : ℤ) → or_else (or_else c t) (pos 1) ≡ first_positive (c ∷ t ∷ [])
    chosen c = ground arith

-- Moving an endpoint to the list of the healthy ones leaves all settings as they are.
setting-move_by :
    (b : Bool) (a c : Ptr) (p : Pool) → setting ((move_by b a p).mem c) ≡ setting (p.mem c)
unfolding move_by
setting-move_by true a c p = refl
setting-move_by false a c p =
    ap setting (add_to_tail-SamePayload a (modify a revive p.list) c)
    ∙ at_or_other a c (λ x. setting (update p.mem a revive x) ≡ setting (p.mem x))
        (ap setting (update_self p.mem a revive))
        (λ n. ap setting (update_other p.mem a c revive n))

setting_other :
    (a c : Ptr) (ep : Endpoint) (p : Pool)
    → (a == c) ≡ false
    → setting ((move_to_healthy a (allocate a ep p)).mem c) ≡ setting (p.mem c)
unfolding move_to_healthy allocate
setting_other a c ep p n =
    setting-move_by _ a c (allocate a ep p) ∙ ap setting (update_other p.mem a c (λ old. ep) n)

setting_self :
    (a : Ptr) (ep : Endpoint) (p : Pool)
    → setting ((move_to_healthy a (allocate a ep p)).mem a) ≡ setting ep
unfolding move_to_healthy allocate
setting_self a ep p =
    setting-move_by _ a a (allocate a ep p) ∙ ap setting (update_self p.mem a (λ old. ep))

module _ (parses : String → Bool) (t : ℤ) where
  -- The pool behind an endpoint that could be created.
  go_on : List EndpointConfig → Ptr → Pool → Option Endpoint → Option Pool
  go_on cfgs a p none = none
  go_on cfgs a p (some ep) =
      add_endpoints parses t cfgs (suc a) (move_to_healthy a (allocate a ep p))

  one_endpoint :
      (cfg : EndpointConfig) (cfgs : List EndpointConfig) (a : Ptr) (p : Pool)
      → add_endpoints parses t (cfg ∷ cfgs) a p
        ≡ go_on cfgs a p (new_http_endpoint parses (complete t cfg))
  unfolding add_endpoints
  one_endpoint cfg cfgs a p = by_endpoint (new_http_endpoint parses (complete t cfg))
    where
      by_endpoint :
          (o : Option Endpoint)
          → (elim o [
            | none ↦ none
            | some ep ↦ add_endpoints parses t cfgs (suc a) (move_to_healthy a (allocate a ep p))
          ])
            ≡ go_on cfgs a p o
      by_endpoint none = unfold go_on in refl
      by_endpoint (some ep) = unfold go_on in refl

  -- The endpoints that follow leave those before them as they are.
  add_endpoints-kept :
      (cfgs : List EndpointConfig) (a : Ptr) (p q : Pool)
      → add_endpoints parses t cfgs a p ≡ some q
      → (b : Ptr) → b < a
      → setting (q.mem b) ≡ setting (p.mem b)
  unfolding add_endpoints
  add_endpoints-kept [] a p q e b l = ap (λ (x : Pool). setting (x.mem b)) (sym (some_inj.0 e))
  add_endpoints-kept (cfg ∷ cfgs) a p q e b l =
      by_endpoint (λ r h k. add_endpoints-kept cfgs (suc a) r q h b k)
        (new_http_endpoint parses (complete t cfg)) (sym (one_endpoint cfg cfgs a p) ∙ e)
    where
      by_endpoint :
          ((r : Pool)
            → add_endpoints parses t cfgs (suc a) r ≡ some q
            → b < suc a
            → setting (q.mem b) ≡ setting (r.mem b))
          → (o : Option Endpoint) → go_on cfgs a p o ≡ some q
          → setting (q.mem b) ≡ setting (p.mem b)
      by_endpoint rec none h = unfold go_on in absurd (cc h)
      by_endpoint rec (some ep) h =
          rec (move_to_healthy a (allocate a ep p)) (unfold go_on in h) (omega (arith, l))
          ∙ setting_other a b ep p (ground (arith, l))

  -- The endpoints of a pool that could be made are, in their order, those that the configuration asks
  -- for.
  pub settings-add_endpoints :
      (cfgs : List EndpointConfig) (a : Ptr) (p q : Pool)
      → add_endpoints parses t cfgs a p ≡ some q
      → map (λ b. setting (q.mem b)) (addresses a (length cfgs)) ≡ map (wanted t) cfgs
  settings-add_endpoints [] a p q e = refl
  settings-add_endpoints (cfg ∷ cfgs) a p q e =
      by_endpoint (λ r h. settings-add_endpoints cfgs (suc a) r q h)
        (new_http_endpoint parses (complete t cfg)) refl (sym (one_endpoint cfg cfgs a p) ∙ e)
    where
      by_endpoint :
          ((r : Pool)
            → add_endpoints parses t cfgs (suc a) r ≡ some q
            → map (λ b. setting (q.mem b)) (addresses (suc a) (length cfgs)) ≡ map (wanted t) cfgs)
          → (o : Option Endpoint) → new_http_endpoint parses (complete t cfg) ≡ o
          → go_on cfgs a p o ≡ some q
          → map (λ b. setting (q.mem b)) (addresses a (length (cfg ∷ cfgs)))
            ≡ map (wanted t) (cfg ∷ cfgs)
      by_endpoint rec none c h = unfold go_on in absurd (cc h)
      by_endpoint rec (some ep) c h =
          let next = move_to_healthy a (allocate a ep p) in
          let made : add_endpoints parses t cfgs (suc a) next ≡ some q = unfold go_on in h in
          ap₂ (λ x xs. x ∷ xs)
            (add_endpoints-kept cfgs (suc a) next q made a (omega arith)
              ∙ setting_self a ep p
              ∙ setting-new_http_endpoint parses t cfg ep c)
            (rec next made)
