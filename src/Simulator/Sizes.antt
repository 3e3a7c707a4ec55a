-- ===== src/Simulator/Sizes.antt =====
-- How much a request adds to the counters.
use Prim.Native.String.{len}
use text.Mathlib.Text.{◌==◌ as str_eq}
use victoriametrics_importer.Prelude.{
  ℕ, ◌+◌, ◌≡◌, refl, ap₂, ◌∙◌, Bool, true, false, not, ◌||◌, Option, none, some, List, [], ◌∷◌,
  if◌then◌else◌, length, arith,
}
use victoriametrics_importer.Simulator.Decode.{
  Bytes, Error, Gunzip, Display, decode_values, any_text,
}
use victoriametrics_importer.Simulator.{
  eol_len, Header, Request, Handling, read_body, request_line_size, begin, values_size,
  take_decoded, look_at, visit, visit_all, add_trailer, is_error, Endpoint, Audit, AuditLine,
  audit_by, audit_of, account, Piece, log_pieces, display, handled, handle_func,
}

-- The bytes of header fields: names, values, and ends of lines.
abbrev pub fields_size : List Header → ℕ
fields_size [] = 0
fields_size ((hdr, vals) ∷ hdrs) = len hdr + eol_len + values_size vals + fields_size hdrs

abbrev pub body_by : (has_body : Bool) → Bytes × Option ℕ → ℕ
body_by false read = 0
body_by true (bytes, none) = length bytes
body_by true (bytes, some e) = 0

-- The bytes of the body, as it came, of a request whose body is read.
abbrev pub body_size : Request → ℕ
body_size r = body_by (str_eq r.method "PUT" || str_eq r.method "POST") r.body

-- The bytes of a whole request.
abbrev pub wire_size : Request → ℕ
wire_size r = request_line_size r + body_size r + fields_size r.header + fields_size r.trailer

read_body-sizes :
    (has_body : Bool) (read : Bytes × Option ℕ) (n : ℕ)
    → ((read_body has_body read n).b_size ≡ body_by has_body read)
      × ((read_body has_body read n).r_size ≡ n + body_by has_body read)
unfolding read_body
read_body-sizes false read n = (refl, omega arith)
read_body-sizes true (bytes, none) n = (refl, refl)
read_body-sizes true (bytes, some e) n = (refl, omega arith)

abbrev SameSizes : Handling → Handling → Type 0
SameSizes h g = (g.r_size ≡ h.r_size) × (g.b_size ≡ h.b_size)

SameSizes-if :
    (b : Bool) (h x y : Handling) → SameSizes h x → SameSizes h y → SameSizes h (if b then x else y)
SameSizes-if true h x y s t = s
SameSizes-if false h x y s t = t

-- Looking at a header does not touch the sizes.
look_at-sizes :
    (gunzip : Gunzip) (d : Display) (hdr : Header) (h : Handling)
    → SameSizes h (look_at gunzip d hdr h)
unfolding look_at take_decoded
look_at-sizes gunzip d (hdr, vals) h =
    let decoded = take_decoded (decode_values gunzip d vals h.body h.err) h in
    let typed = record h { is_text = any_text vals } in
    SameSizes-if (str_eq hdr "Content-Encoding") h decoded
      (if str_eq hdr "Content-Type" then typed else h) (refl, refl)
      (SameSizes-if (str_eq hdr "Content-Type") h typed h (refl, refl) (refl, refl))

visit_all-sizes :
    (gunzip : Gunzip) (d : Display) (hdrs : List Header) (h : Handling)
    → ((visit_all gunzip d hdrs h).r_size ≡ h.r_size + fields_size hdrs)
      × ((visit_all gunzip d hdrs h).b_size ≡ h.b_size)
unfolding visit_all visit
visit_all-sizes gunzip d [] h = (omega arith, refl)
visit_all-sizes gunzip d ((hdr, vals) ∷ hdrs) h =
    let g = record h { r_size = h.r_size + (len hdr + eol_len) + values_size vals } in
    let now = look_at-sizes gunzip d (hdr, vals) g in
    let rest = visit_all-sizes gunzip d hdrs (visit gunzip d (hdr, vals) h) in
    (omega (arith, now.0, rest.0), rest.1 ∙ now.1)

add_trailer-size : (hdrs : List Header) (n : ℕ) → add_trailer hdrs n ≡ n + fields_size hdrs
unfolding add_trailer
add_trailer-size [] n = omega arith
add_trailer-size ((hdr, vals) ∷ hdrs) n =
    omega (arith, add_trailer-size hdrs (n + (len hdr + eol_len) + values_size vals))

-- The sizes of a request do not depend on its decoding.
pub handled-sizes :
    (gunzip : Gunzip) (d : Display) (r : Request)
    → (add_trailer r.trailer (handled gunzip d r).r_size ≡ wire_size r)
      × ((handled gunzip d r).b_size ≡ body_size r)
unfolding handled begin
handled-sizes gunzip d r =
    let first =
      read_body-sizes (str_eq r.method "PUT" || str_eq r.method "POST") r.body
        (request_line_size r) in
    let all = visit_all-sizes gunzip d r.header (begin r) in
    (
      omega
          (arith, first.0, first.1, all.0, add_trailer-size r.trailer (handled gunzip d r).r_size),
      all.1 ∙ first.0,
    )

-- The counters, when the counted request is added to them.
abbrev pub add_request : (is_counted : Bool) → Request → ℕ × ℕ × ℕ → ℕ × ℕ × ℕ
add_request false r c = c
add_request true r (total, body, requests) = (total + wire_size r, body + body_size r, requests + 1)

abbrev pub counters : Endpoint → ℕ × ℕ × ℕ
counters ep = (ep.traffic_byte_count, ep.body_byte_count, ep.request_count)

abbrev pub is_counted : Gunzip → Display → Request → Bool
is_counted gunzip d r = not (is_error (handled gunzip d r).err)

log_pieces-counters : (ps : List Piece) (ep : Endpoint) → counters (log_pieces ps ep) ≡ counters ep
unfolding log_pieces
log_pieces-counters [] ep = refl
log_pieces-counters (p ∷ ps) ep = refl

audit_by-counters :
    (file : Option (List Audit)) (line : AuditLine) (ep : Endpoint)
    → counters (audit_by file line ep) ≡ counters ep
unfolding audit_by
audit_by-counters none line ep = refl
audit_by-counters (some file) line ep = refl

account-counters :
    (err : Option Error) (ts : ℕ) (r : Request) (h : Handling) (ep : Endpoint)
    → add_trailer r.trailer h.r_size ≡ wire_size r
    → h.b_size ≡ body_size r
    → counters (account err ts r h ep) ≡ add_request (not (is_error err)) r (counters ep)
unfolding account
account-counters (some e) ts r h ep t b = refl
account-counters none ts r h ep t b =
    let size = add_trailer r.trailer h.r_size in
    audit_by-counters ep.audit_file (audit_of ts r size) (record ep {
      traffic_byte_count = ep.traffic_byte_count + size;
      body_byte_count = ep.body_byte_count + h.b_size;
      request_count = ep.request_count + 1;
    })
    ∙ ap₂ (λ x y. (ep.traffic_byte_count + x, ep.body_byte_count + y, ep.request_count + 1)) t b

-- A request that is counted adds its whole size, the size of its body, and one to the
-- counters; any other leaves them as they are.
pub handle_func-counters :
    (gunzip : Gunzip) (d : Display) (ts : ℕ) (r : Request) (ep : Endpoint)
    → counters (handle_func gunzip d ts r ep) ≡ add_request (is_counted gunzip d r) r (counters ep)
unfolding handle_func
handle_func-counters gunzip d ts r ep =
    let s = handled-sizes gunzip d r in
    log_pieces-counters (display d r (handled gunzip d r))
      (account (handled gunzip d r).err ts r (handled gunzip d r) ep)
    ∙ account-counters (handled gunzip d r).err ts r (handled gunzip d r) ep s.0 s.1
