-- ===== src/Pool/Create/Created.antt =====
-- What NewHttpEndpointPool gives for a configuration.
use victoriametrics_importer.Prelude.{
  ℕ, ◌≡◌, refl, Bool, true, false, Option, none, some, List, [], inl, inr, length, map, arith,
}
use victoriametrics_importer.Prelude.Int.{ℤ, pos, ltb_ℤ}
use victoriametrics_importer.Credit.{Credit}
use victoriametrics_importer.Pool.{Pool}
use victoriametrics_importer.Pool.Auth.{build_html_basic_auth}
use victoriametrics_importer.Pool.Invariant.{Inv}
use victoriametrics_importer.Pool.Startup.{
  EndpointConfig, add_endpoints, configured, addresses, all_parse, Started, add_endpoints-Started,
}
use victoriametrics_importer.Pool.Startup.Endpoints.{setting, wanted}
use victoriametrics_importer.Pool.Create.{
  second, PoolConfig, Libraries, rotate_interval, Rate, unlimited, bad_spec, bad_ticker, limited,
  rate_limit, new_pool, HttpEndpointPool, Creation, bad_password, bad_offset, bad_rate, bad_url,
  panicked, created, shuffled,
}

-- The credit of a limit that has no error.
abbrev pub credit_of : Rate → Option (Option Credit)
credit_of unlimited = some none
credit_of (bad_spec e) = none
credit_of bad_ticker = none
credit_of (limited c) = some (some c)

abbrev pub in_order : Libraries → PoolConfig → List EndpointConfig
in_order o cfg = shuffled o cfg.shuffle (configured cfg.endpoints)

abbrev pub urls_parse : Libraries → PoolConfig → Bool
urls_parse o cfg = all_parse o.parses cfg.mark_unhealthy_threshold (in_order o cfg)

-- Each outcome with its cause. A pool that is created has all its endpoints on its list in their order,
-- each with the URL and the threshold that are wanted, has the header and the credit that the
-- configuration gives, and checks unhealthy endpoints at most once a second.
pub data IsCreated (o : Libraries) (cfg : PoolConfig) : Creation → Type 0 where
  password_fails :
      (e : ℕ)
      → build_html_basic_auth o.surroundings cfg.username cfg.password ≡ inl e
      → IsCreated o cfg (bad_password e)
  offset_fails :
      (e : ℕ)
      → rotate_interval o cfg.healthy_rotate_interval cfg.healthy_rotate_interval_offset ≡ inl e
      → IsCreated o cfg (bad_offset e)
  rate_fails :
      (e : ℕ) → rate_limit o cfg.rate_limit_mbps ≡ bad_spec e → IsCreated o cfg (bad_rate e)
  ticker_panics : rate_limit o cfg.rate_limit_mbps ≡ bad_ticker → IsCreated o cfg panicked
  url_fails : urls_parse o cfg ≡ false → IsCreated o cfg bad_url
  serves_all :
      (ep : HttpEndpointPool)
      → urls_parse o cfg ≡ true
      → Inv ep.pool (addresses 1 (length (in_order o cfg)))
      → map (λ a. setting (ep.pool.mem a)) (addresses 1 (length (in_order o cfg)))
        ≡ map (wanted cfg.mark_unhealthy_threshold) (in_order o cfg)
      → build_html_basic_auth o.surroundings cfg.username cfg.password ≡ inr ep.authorization
      → credit_of (rate_limit o cfg.rate_limit_mbps) ≡ some ep.credit
      → ltb_ℤ ep.health_check_interval (pos second) ≡ false
      → IsCreated o cfg (created ep)

new_pool-Inv : (cfg : PoolConfig) (rotate : ℤ) → Inv (new_pool cfg rotate) []
unfolding new_pool
new_pool-Inv cfg rotate = record {
  rep = record { head = refl; tail = refl; chain = tt; distinct = tt };
  flags = λ a. refl;
  in_budget = λ a h. ground (arith, h);
  thresholds = λ a. refl;
  apart = λ a h. refl;
  checks = tt;
}

-- The loop over the endpoints of a new pool.
loop :
    (o : Libraries) (cfg : PoolConfig) (rotate : ℤ)
    → Started [] 1 (length (in_order o cfg)) (urls_parse o cfg) (
        add_endpoints o.parses cfg.mark_unhealthy_threshold
          (in_order o cfg)
          1
          (new_pool cfg rotate))
loop o cfg rotate =
    add_endpoints-Started o.parses cfg.mark_unhealthy_threshold (in_order o cfg) 1
      (new_pool cfg rotate) [] (record { listed = λ b h. refl; checked = unfold new_pool in refl })
      (new_pool-Inv cfg rotate)

-- The endpoints of a pool that could be made are those configured.
abbrev AsConfigured : Libraries → PoolConfig → Option Pool → Type 0
AsConfigured o cfg made =
    (q : Pool)
    → made ≡ some q
    → map (λ a. setting (q.mem a)) (addresses 1 (length (in_order o cfg)))
      ≡ map (wanted cfg.mark_unhealthy_threshold) (in_order o cfg)
