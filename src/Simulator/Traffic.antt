-- ===== src/Simulator/Traffic.antt =====
-- The reports on the traffic, over runs of requests and rounds of the logger.
use victoriametrics_importer.Prelude.{
  ℕ, suc, ◌+◌, ◌*◌, ◌≤◌, ◌≡◌, refl, ap, ap₂, ◌∙◌, Bool, true, false, ◌&&◌, List, [], ◌∷◌, length,
  arith,
}
use victoriametrics_importer.Simulator.Decode.{Gunzip, Display}
use victoriametrics_importer.Simulator.{Request, Endpoint, handle_func}
use victoriametrics_importer.Simulator.Rate.{Logger, Report, start_log, wake, log_round}
use victoriametrics_importer.Simulator.Sizes.{add_request, counters, handle_func-counters}
use victoriametrics_importer.Simulator.Counted.{is_map, is_good, is_counted-is_good, and_both}

-- What happens to the endpoint: a request, or a round of the logger.
pub data Event : Type 0 where
  request : (ts : ℕ) → Request → Event
  tick : (now late : ℕ) → Event

pub record Watched : Type 0 where
  pub endpoint : Endpoint
  pub logger : Logger
  pub reports : List Report

logged : Report × Logger × Endpoint → List Report → Watched
logged (report, lg, ep) reports = record { endpoint = ep; logger = lg; reports = report ∷ reports }

module _ (gunzip : Gunzip) (d : Display) (interval : ℕ) where
  pub happen : Event → Watched → Watched
  unfolding logged
  happen (request ts r) w = record w { endpoint = handle_func gunzip d ts r w.endpoint }
  happen (tick now late) w = logged (log_round interval now late w.logger w.endpoint) w.reports

  abbrev pub run : List Event → Watched → Watched
  run [] w = w
  run (e ∷ es) w = run es (happen e w)

abbrev pub plus : ℕ × ℕ × ℕ → ℕ × ℕ × ℕ → ℕ × ℕ × ℕ
plus (a, b, c) (x, y, z) = (a + x, b + y, c + z)

-- The bytes, the bytes of bodies and the requests that reports name.
abbrev pub reported : List Report → ℕ × ℕ × ℕ
reported [] = (0, 0, 0)
reported (r ∷ rs) = plus (r.total_bytes, r.body_bytes, r.requests) (reported rs)

-- Those of the requests of a run whose bodies are good.
abbrev pub came : Gunzip → Display → List Event → ℕ × ℕ × ℕ
came gunzip d [] = (0, 0, 0)
came gunzip d (request ts r ∷ es) = add_request (is_good gunzip d r) r (came gunzip d es)
came gunzip d (tick now late ∷ es) = came gunzip d es

-- The headers of all requests are maps.
abbrev pub all_maps : List Event → Bool
all_maps [] = true
all_maps (request ts r ∷ es) = is_map r.header && all_maps es
all_maps (tick now late ∷ es) = all_maps es

abbrev pub ticks : List Event → ℕ
ticks [] = 0
ticks (request ts r ∷ es) = ticks es
ticks (tick now late ∷ es) = suc (ticks es)

abbrev pub seen : Watched → ℕ × ℕ × ℕ
seen w = plus (reported w.reports) (counters w.endpoint)

triple : {a b c x y z : ℕ} → a ≡ x → b ≡ y → c ≡ z → ◌≡◌ {A = ℕ × ℕ × ℕ} (a, b, c) (x, y, z)
triple {a = a} {y = y} {z = z} p q r = ap₂ (λ u v. (a, u, v)) q r ∙ ap (λ u. (u, y, z)) p

plus-zero : (p : ℕ × ℕ × ℕ) → p ≡ plus p (0, 0, 0)
plus-zero p = triple (omega arith) (omega arith) (omega arith)

plus-add_request :
    (b : Bool) (r : Request) (p q s : ℕ × ℕ × ℕ)
    → plus (plus p (add_request b r q)) s ≡ plus (plus p q) (add_request b r s)
plus-add_request false r p q s = refl
plus-add_request true r p q s = triple (omega arith) (omega arith) (omega arith)

plus-rotate : (p q s : ℕ × ℕ × ℕ) → plus (plus (plus p q) (0, 0, 0)) s ≡ plus (plus q p) s
plus-rotate p q s = triple (omega arith) (omega arith) (omega arith)

wake-late : (now next_log_time late : ℕ) → next_log_time ≤ wake now next_log_time late
unfolding wake
wake-late now next_log_time late = ground arith

-- What a run keeps: the reports and the counters name what came, and no round is early.
pub record Kept (gunzip : Gunzip) (d : Display) (interval : ℕ) (es : List Event) (w v : Watched)
    : Type 0 where
  pub conserved : seen v ≡ plus (seen w) (came gunzip d es)
  pub rounds : length v.reports ≡ ticks es + length w.reports
  pub on_time : v.logger.next_log_time ≡ w.logger.next_log_time + ticks es * interval
  pub not_early :
      w.logger.next_log_time ≤ w.logger.stats_time → v.logger.next_log_time ≤ v.logger.stats_time

run-Kept :
    (gunzip : Gunzip) (d : Display) (interval : ℕ) (es : List Event) (w : Watched)
    → all_maps es ≡ true
    → Kept gunzip d interval es w (run gunzip d interval es w)
unfolding happen logged log_round
run-Kept gunzip d interval [] w m = record {
  conserved = plus-zero (seen w);
  rounds = omega arith;
  on_time = omega arith;
  not_early = λ h. h;
}
run-Kept gunzip d interval (request ts r ∷ es) w m =
    let (now, later) = and_both (is_map r.header) (all_maps es) m in
    let rest = run-Kept gunzip d interval es (happen gunzip d interval (request ts r) w) later in
    let counted =
      handle_func-counters gunzip d ts r w.endpoint
      ∙ ap (λ b. add_request b r (counters w.endpoint)) (is_counted-is_good gunzip d r now) in
    record {
      conserved =
          rest.conserved
          ∙ ap (λ c. plus (plus (reported w.reports) c) (came gunzip d es)) counted
          ∙ plus-add_request (is_good gunzip d r) r (reported w.reports) (counters w.endpoint)
              (came gunzip d es);
      rounds = rest.rounds;
      on_time = rest.on_time;
      not_early = rest.not_early;
    }
run-Kept gunzip d interval (tick now late ∷ es) w m =
    let rest = run-Kept gunzip d interval es (happen gunzip d interval (tick now late) w) m in
    record {
      conserved =
          rest.conserved
          ∙ plus-rotate (counters w.endpoint) (reported w.reports) (came gunzip d es);
      rounds = omega (arith, rest.rounds);
      on_time = omega (arith, rest.on_time);
      not_early = λ h. rest.not_early (wake-late now (w.logger.next_log_time + interval) late);
    }

abbrev pub started : (now : ℕ) → Endpoint → Watched
started now ep = let s = start_log now ep in record { endpoint = s.1; logger = s.0; reports = [] }

-- From the start of the logger on, whatever rounds come, in whatever order with requests that name no
-- header twice: the bytes and requests in the reports, with those counted since the last one, are those
-- of the requests before the start, counted as requests only, and of the requests since then with no
-- body to read or with a good one. Good is a body that was read whole, if its encodings are gzip or
-- none and, where bodies are displayed, gunzip takes them off without an error; where bodies are
-- displayed and gzip is its first encoding, a body that breaks off is judged by the part that came. The
-- k-th round is not before k intervals have passed.
pub start-Kept :
    (gunzip : Gunzip) (d : Display) (interval now : ℕ) (es : List Event) (ep : Endpoint)
    → all_maps es ≡ true
    → (seen (run gunzip d interval es (started now ep))
        ≡ plus (0, 0, ep.request_count) (came gunzip d es))
      × (length (run gunzip d interval es (started now ep)).reports ≡ ticks es)
      × (now + ticks es * interval ≤ (run gunzip d interval es (started now ep)).logger.stats_time)
unfolding start_log
start-Kept gunzip d interval now es ep m =
    let k = run-Kept gunzip d interval es (started now ep) m in
    let before : 0 + ep.request_count ≡ ep.request_count = omega arith in
    (
      k.conserved ∙ ap (λ n. plus (0, 0, n) (came gunzip d es)) before,
      omega (arith, k.rounds),
      omega (arith, k.on_time, k.not_early (omega arith)),
    )
