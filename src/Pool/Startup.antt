-- ===== src/Pool/Startup.antt =====
-- NewHttpEndpointPool of vmi/internal/http_endpoint_pool.go, from its list of endpoints on, with
-- NewHttpEndpoint and OverrideEndpoints. The order that a shuffle gives is the order of the list. A
-- new endpoint gets the next address; whether url.Parse takes a text is an argument.
pub mod Endpoints
use Prim.Native.String.{String}
use text.Mathlib.Text.{◌==◌ as str_eq}
use victoriametrics_importer.Prelude.{
  ℕ, zero, suc, ◌≤◌, ◌≡◌, refl, sym, ap, subst, ◌∙◌, Bool, true, false, Option, none, some, List,
  [], ◌∷◌, ◌++◌, length, if◌then◌else◌, arith,
}
use mathlib.Core.List.{append_assoc, append-nil}
use victoriametrics_importer.Prelude.Int.{ℤ, pos, ltb_ℤ}
use victoriametrics_importer.Prelude.Sets.{has, has-append}
use victoriametrics_importer.EndpointList.{Ptr, Endpoint, update}
use victoriametrics_importer.EndpointList.Seg.{Seg-same}
use victoriametrics_importer.Pool.{Pool, EndpointStats, on_list, modify, move_to_healthy, move_by}
use victoriametrics_importer.Pool.Invariant.{Inv, positive, update_self, update_other, at_or_other}
use victoriametrics_importer.Pool.Recovery.{move_to_healthy-Inv}

pub record EndpointConfig : Type 0 where
  pub url : String
  pub mark_unhealthy_threshold : ℤ

abbrev pub url_default : String
url_default = "http://localhost:8428/api/v1/import/prometheus"

pub default_http_endpoint_config : EndpointConfig
default_http_endpoint_config = record { url = url_default; mark_unhealthy_threshold = pos 0 }

-- The configuration of the endpoints that a list of URLs in place of the file's gives.
pub override_endpoints : List String → List EndpointConfig
override_endpoints [] = []
override_endpoints (u ∷ us) =
    record { url = u; mark_unhealthy_threshold = pos 0 } ∷ override_endpoints us

abbrev pub or_else : ℤ → ℤ → ℤ
or_else a b = if ltb_ℤ (pos 0) a then a else b

-- The default URL, and the threshold of the endpoint, of the pool, or 1.
pub complete : (pool_threshold : ℤ) → EndpointConfig → EndpointConfig
complete pool_threshold cfg = record {
  url = if str_eq cfg.url "" then url_default else cfg.url;
  mark_unhealthy_threshold = or_else (or_else cfg.mark_unhealthy_threshold pool_threshold) (pos 1);
}

pub new_http_endpoint : (parses : String → Bool) → EndpointConfig → Option Endpoint
new_http_endpoint parses cfg =
    if parses cfg.url
    then some (record {
      url = cfg.url;
      mark_unhealthy_threshold = cfg.mark_unhealthy_threshold;
      healthy = false;
      num_errors = 0;
      error_ts = 0;
      prev = none;
      next = none;
    })
    else none

abbrev pub no_endpoint_stats : EndpointStats
no_endpoint_stats = record {
  send_buffer_count = 0;
  send_buffer_byte_count = 0;
  send_buffer_error_count = 0;
  health_check_count = 0;
  health_check_error_count = 0;
}

-- `make(HttpEndpointStats, ...)` for the endpoint's URL, and the endpoint in the store.
pub allocate : Ptr → Endpoint → Pool → Pool
allocate a ep p = record (on_list (modify a (λ old. ep)) p) {
  stats = record (p.stats) {
    endpoint_stats = λ u. if str_eq u ep.url then no_endpoint_stats else p.stats.endpoint_stats u;
  };
}

-- The loop over the endpoints, from the next free address; none for the error.
pub add_endpoints :
    (parses : String → Bool) → (pool_threshold : ℤ) → List EndpointConfig → Ptr → Pool → Option Pool
add_endpoints parses pool_threshold [] a p = some p
add_endpoints parses pool_threshold (cfg ∷ cfgs) a p =
    elim (new_http_endpoint parses (complete pool_threshold cfg)) [
      | none ↦ none
      | some ep ↦
          add_endpoints parses pool_threshold cfgs (suc a) (move_to_healthy a (allocate a ep p))
    ]

-- With none configured, the default one.
abbrev pub configured : List EndpointConfig → List EndpointConfig
configured [] = default_http_endpoint_config ∷ []
configured (cfg ∷ cfgs) = cfg ∷ cfgs

-- The addresses of `n` new endpoints.
abbrev pub addresses : Ptr → ℕ → List Ptr
addresses a zero = []
addresses a (suc n) = a ∷ addresses (suc a) n

-- Behind `a` no address is on the list or under a health check.
pub record IsFree (a : Ptr) (p : Pool) (xs : List Ptr) : Type 0 where
  pub listed : (b : Ptr) → a ≤ b → has b xs ≡ false
  pub checked : p.health_checks ≡ []

new_http_endpoint-fresh :
    (parses : String → Bool) (cfg : EndpointConfig) (ep : Endpoint)
    → new_http_endpoint parses cfg ≡ some ep
    → ep.healthy ≡ false × (ep.mark_unhealthy_threshold ≡ cfg.mark_unhealthy_threshold)
unfolding new_http_endpoint
new_http_endpoint-fresh parses cfg ep e = ground (arith, e)

complete-positive :
    (parses : String → Bool) (t : ℤ) (cfg : EndpointConfig) (ep : Endpoint)
    → new_http_endpoint parses (complete t cfg) ≡ some ep
    → (ep.healthy ≡ false) × (positive ep ≡ true)
unfolding complete
complete-positive parses t cfg ep e =
    let f = new_http_endpoint-fresh parses (complete t cfg) ep e in
    (f.0, ap (ltb_ℤ (pos 0)) f.1 ∙ chosen cfg.mark_unhealthy_threshold)
  where
    chosen : (c : ℤ) → ltb_ℤ (pos 0) (or_else (or_else c t) (pos 1)) ≡ true
    chosen c = ground arith

allocate-Inv :
    (a : Ptr) (ep : Endpoint) (p : Pool) (xs : List Ptr)
    → has a xs ≡ false
    → ep.healthy ≡ false
    → positive ep ≡ true
    → Inv p xs
    → Inv (allocate a ep p) xs
unfolding allocate
allocate-Inv a ep p xs free idle good v = record {
  rep = record {
    head = v.rep.head;
    tail = v.rep.tail;
    chain =
        Seg-same p.mem (update p.mem a (λ old. ep)) none xs none (λ b i. ground (arith, i, free))
          v.rep.chain;
    distinct = v.rep.distinct;
  };
  flags = λ b.
      at_or_other a b (λ c. ((allocate a ep p).mem c).healthy ≡ has c xs)
        (ap (λ (e : Endpoint). e.healthy) (update_self p.mem a (λ old. ep)) ∙ idle ∙ sym free)
        (λ n. ap (λ (e : Endpoint). e.healthy) (update_other p.mem a b (λ old. ep) n) ∙ v.flags b);
  in_budget = λ b i. ground (arith, v.in_budget b i, i, free);
  thresholds = λ b.
      at_or_other a b (λ c. positive ((allocate a ep p).mem c) ≡ true)
        (ap positive (update_self p.mem a (λ old. ep)) ∙ good)
        (λ n. ap positive (update_other p.mem a b (λ old. ep) n) ∙ v.thresholds b);
  apart = v.apart;
  checks = v.checks;
}

move_by-checks : (b : Bool) (a : Ptr) (p : Pool) → (move_by b a p).health_checks ≡ p.health_checks
unfolding move_by
move_by-checks true a p = refl
move_by-checks false a p = refl

-- The pool behind one endpoint, whose address was free.
added-Inv :
    (a : Ptr) (ep : Endpoint) (p : Pool) (xs : List Ptr)
    → IsFree a p xs
    → ep.healthy ≡ false
    → positive ep ≡ true
    → Inv p xs
    → Inv (move_to_healthy a (allocate a ep p)) (xs ++ a ∷ [])
      × IsFree (suc a) (move_to_healthy a (allocate a ep p)) (xs ++ a ∷ [])
unfolding move_to_healthy
added-Inv a ep p xs free idle good v =
    let out = free.listed a (omega arith) in
    let w = allocate-Inv a ep p xs out idle good v in
    let none_checked : has a (allocate a ep p).health_checks ≡ false =
      unfold allocate in ap (has a) free.checked in
    (
      subst (λ b. Inv (move_to_healthy a (allocate a ep p)) (if b then xs else xs ++ a ∷ [])) out
          (move_to_healthy-Inv a (allocate a ep p) xs w none_checked),
      record {
        listed = λ b h. ground (arith, has-append b xs (a ∷ []), free.listed b (omega arith));
        checked = move_by-checks _ a (allocate a ep p) ∙ (unfold allocate in free.checked);
      },
    )

-- What the loop over endpoints comes to: an error if a URL does not parse, else the pool in which
-- the endpoints stand behind those that were there, in the order of their configuration.
pub data Started (xs : List Ptr) (a : Ptr) (n : ℕ) (parsed : Bool) : Option Pool → Type 0 where
  fails : parsed ≡ false → Started xs a n parsed none
  serves : (q : Pool) → parsed ≡ true → Inv q (xs ++ addresses a n) → Started xs a n parsed (some q)

-- Whether every URL parses, the empty one standing for the default.
abbrev pub all_parse : (String → Bool) → ℤ → List EndpointConfig → Bool
all_parse parses t [] = true
all_parse parses t (cfg ∷ cfgs) =
    if parses (complete t cfg).url then all_parse parses t cfgs else false

grow :
    {c d : Bool} {o : Option Pool} (a : Ptr) (xs : List Ptr) (n : ℕ)
    → c ≡ d
    → Started (xs ++ a ∷ []) (suc a) n d o
    → Started xs a (suc n) c o
grow a xs n e (fails h) = fails (e ∙ h)
grow a xs n e (serves q h v) =
    serves q (e ∙ h) (subst (Inv q) (append_assoc xs (a ∷ []) (addresses (suc a) n)) v)

pub add_endpoints-Started :
    (parses : String → Bool) (t : ℤ) (cfgs : List EndpointConfig) (a : Ptr) (p : Pool)
    (xs : List Ptr)
    → IsFree a p xs
    → Inv p xs
    → Started xs a (length cfgs) (all_parse parses t cfgs) (add_endpoints parses t cfgs a p)
unfolding add_endpoints
add_endpoints-Started parses t [] a p xs free v =
    serves p refl (subst (Inv p) (sym (append-nil xs)) v)
add_endpoints-Started parses t (cfg ∷ cfgs) a p xs free v =
    by_endpoint (λ q. add_endpoints-Started parses t cfgs (suc a) q (xs ++ a ∷ []))
      (new_http_endpoint parses (complete t cfg)) refl
  where
    parse_of :
        (b : Bool)
        → parses (complete t cfg).url ≡ b
        → all_parse parses t (cfg ∷ cfgs) ≡ (if b then all_parse parses t cfgs else false)
    parse_of b e = ap (λ c. if c then all_parse parses t cfgs else false) e

    by_endpoint :
        ((q : Pool)
          → IsFree (suc a) q (xs ++ a ∷ [])
          → Inv q (xs ++ a ∷ [])
          → Started
              (xs ++ a ∷ [])
              (suc a)
              (length cfgs)
              (all_parse parses t cfgs)
              (add_endpoints parses t cfgs (suc a) q))
        → (o : Option Endpoint) → new_http_endpoint parses (complete t cfg) ≡ o
        → Started xs a (suc (length cfgs)) (all_parse parses t (cfg ∷ cfgs)) (elim o [
          | none ↦ none
          | some ep ↦ add_endpoints parses t cfgs (suc a) (move_to_healthy a (allocate a ep p))
        ])
    by_endpoint rec none e = fails (unfold new_http_endpoint in ground (arith, e))
    by_endpoint rec (some ep) e =
        let f = complete-positive parses t cfg ep e in
        let w = added-Inv a ep p xs free f.0 f.1 v in
        let parsed : parses (complete t cfg).url ≡ true =
          unfold new_http_endpoint in ground (arith, e) in
        grow a xs (length cfgs) (parse_of true parsed)
          (rec (move_to_healthy a (allocate a ep p)) w.1 w.0)

-- NewHttpEndpointPool's loop, for a pool with no endpoints yet, over the endpoints configured or the
-- default one: it gives the error exactly if a URL does not parse, the default one standing for an
-- empty one, and else a pool whose healthy list is all of the endpoints in their order.
pub start_pool-Started :
    (parses : String → Bool) (t : ℤ) (cfgs : List EndpointConfig) (p : Pool)
    → p.health_checks ≡ []
    → Inv p []
    → Started [] 1
        (length (configured cfgs))
        (all_parse parses t (configured cfgs))
        (add_endpoints parses t (configured cfgs) 1 p)
start_pool-Started parses t cfgs p e v =
    add_endpoints-Started parses t (configured cfgs) 1 p []
      (record { listed = λ b h. refl; checked = e }) v
