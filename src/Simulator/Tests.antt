-- ===== src/Simulator/Tests.antt =====
-- Requests to the emulated endpoint.
use victoriametrics_importer.Prelude.{
  ℕ, ◌+◌, ◌*◌, ◌≤◌, ◌≡◌, refl, false, Option, none, some, List, [], ◌∷◌, inr, length,
}
use victoriametrics_importer.Prelude.Int.{pos, negsuc}
use victoriametrics_importer.Simulator.Decode.{Bytes, Gunzip, Display}
use victoriametrics_importer.Simulator.{Request, Endpoint, request_line_size, handle_func}
use victoriametrics_importer.Simulator.Sizes.{counters, fields_size}
use victoriametrics_importer.Simulator.Traffic.{
  Event, request, tick, run, plus, seen, came, ticks, started, start-Kept,
}
use victoriametrics_importer.Simulator.Errors.{gzip_header, handle_func-hidden_error}
use victoriametrics_importer.Simulator.Audits.{IsAudit, serve, lines_for, serve-IsAudit}

abbrev import_request : Bytes × Option ℕ → Request
import_request body = record {
  remote_addr = "localhost:43210";
  method = "PUT";
  request_uri = "/api/v1/import/prometheus";
  proto = "HTTP/1.1";
  body = body;
  header = gzip_header;
  displayed_header = gzip_header;
  trailer = [];
}

abbrev whole : Request
whole = import_request (31 ∷ 139 ∷ [], none)

abbrev cut_off : Request
cut_off = import_request (31 ∷ 139 ∷ [], some 5)

abbrev gunzip : Gunzip
gunzip bytes = inr (65 ∷ [], none)

abbrev quiet : Display
quiet = record { level = negsuc 0; body_limit = pos 512 }

abbrev bodies : Display
bodies = record { level = pos 2; body_limit = pos 512 }

abbrev idle : Endpoint
idle = record {
  traffic_byte_count = 0;
  body_byte_count = 0;
  request_count = 0;
  audit_file = some [];
  audit_file_header_displayed = false;
  logged = [];
}

abbrev two_requests : List Event
two_requests = request 7 whole ∷ tick 8 0 ∷ request 9 whole ∷ tick 20 1 ∷ []

start-Kept_example :
    (seen (run gunzip quiet 10 two_requests (started 5 idle))
      ≡ plus (0, 0, idle.request_count) (came gunzip quiet two_requests))
    × (length (run gunzip quiet 10 two_requests (started 5 idle)).reports ≡ ticks two_requests)
    × (5 + ticks two_requests * 10
        ≤ (run gunzip quiet 10 two_requests (started 5 idle)).logger.stats_time)
start-Kept_example = start-Kept gunzip quiet 10 5 two_requests idle refl

handle_func-hidden_error_example : counters (handle_func gunzip bodies 7 cut_off idle) ≡ (
  0 + (request_line_size cut_off + fields_size cut_off.header + fields_size cut_off.trailer),
  0,
  0 + 1,
)
handle_func-hidden_error_example =
    handle_func-hidden_error gunzip bodies 7 cut_off idle (31 ∷ 139 ∷ []) (65 ∷ []) 5 refl refl refl
      refl refl

abbrev served : List (ℕ × Request)
served = (7, whole) ∷ (8, cut_off) ∷ (9, whole) ∷ []

serve-IsAudit_example : IsAudit (serve gunzip quiet served idle) (lines_for gunzip quiet served)
serve-IsAudit_example = serve-IsAudit gunzip quiet served idle refl refl refl
