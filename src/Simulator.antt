-- ===== src/Simulator.antt =====
-- vmi-extras/vmi-endpoint/main.go: the emulated import endpoint, what it does with a
-- request. What is displayed is data in place of text, and the int counters do not overflow.
-- A map of headers is the list of its entries as a loop visits them, in an order of its own for each
-- loop. Times are nanoseconds.
pub mod Decode
pub mod Rate
pub mod Settings
pub mod Sizes
pub mod Traffic
mod Errors
pub mod Counted
mod Audits
mod Tests
use victoriametrics_importer.Simulator.Decode.{
  Bytes, Error, read_failed, Gunzip, Display, shows_request, shows_headers, shows_body,
  decode_values, any_text,
}
use Prim.Native.String.{String, len, slice, ◌++◌ as append}
use text.Mathlib.Text.{◌==◌ as str_eq}
use victoriametrics_importer.Prelude.{
  ℕ, zero, suc, ◌+◌, ◌-◌, ◌<◌, Bool, true, false, not, ◌&&◌, ◌||◌, Option, none, some, List, [],
  ◌∷◌, ◌++◌, ◌⊎◌, inl, inr, ltb, leb, if◌then◌else◌, length, take,
}
use victoriametrics_importer.Prelude.Int.{ℤ, pos, negsuc, pos_part, ltb_ℤ}

abbrev pub eol_len : ℕ
eol_len = len "\r\n"

abbrev pub Header : Type 0
Header = String × List String

pub record Request : Type 0 where
  pub remote_addr : String
  pub method : String
  pub request_uri : String
  pub proto : String
  pub body : Bytes × Option ℕ
  pub header : List Header
  pub displayed_header : List Header
  pub trailer : List Header

-- The variables of handleFunc. No body is a nil slice.
pub record Handling : Type 0 where
  pub r_size : ℕ
  pub b_size : ℕ
  pub body : Option Bytes
  pub err : Option Error
  pub is_text : Bool

-- `io.ReadAll(r.Body)`, which gives what it read also when it fails.
read_body : (has_body : Bool) → Bytes × Option ℕ → (r_size : ℕ) → Handling
read_body false read r_size = record {
  r_size = r_size;
  b_size = 0;
  body = none;
  err = none;
  is_text = true;
}
read_body true (bytes, none) r_size = record {
  r_size = r_size + length bytes;
  b_size = length bytes;
  body = some bytes;
  err = none;
  is_text = true;
}
read_body true (bytes, some e) r_size = record {
  r_size = r_size;
  b_size = 0;
  body = some bytes;
  err = some (read_failed e);
  is_text = true;
}

pub request_line_size : Request → ℕ
request_line_size r = len r.method + len r.request_uri + len r.proto + eol_len

pub begin : Request → Handling
unfolding read_body
begin r = read_body (str_eq r.method "PUT" || str_eq r.method "POST") r.body (request_line_size r)

pub values_size : List String → ℕ
values_size [] = 0
values_size (val ∷ vals) = len val + values_size vals

take_decoded : Option Bytes × Option Error → Handling → Handling
take_decoded (body, err) h = record h { body = body; err = err }

-- The switch on a header's name, without the sizes.
pub look_at : Gunzip → Display → Header → Handling → Handling
unfolding take_decoded
look_at gunzip d (hdr, vals) h =
    if str_eq hdr "Content-Encoding"
    then take_decoded (decode_values gunzip d vals h.body h.err) h
    else if str_eq hdr "Content-Type"
    then record h { is_text = any_text vals }
    else h

pub visit : Gunzip → Display → Header → Handling → Handling
visit gunzip d (hdr, vals) h =
    look_at gunzip d (hdr, vals)
      (record h { r_size = h.r_size + (len hdr + eol_len) + values_size vals })

-- `for hdr, hdrVals := range r.Header`
pub visit_all : Gunzip → Display → List Header → Handling → Handling
visit_all gunzip d [] h = h
visit_all gunzip d (hdr ∷ hdrs) h = visit_all gunzip d hdrs (visit gunzip d hdr h)

-- `for hdr, hdrVals := range r.Trailer`
pub add_trailer : List Header → (r_size : ℕ) → ℕ
add_trailer [] r_size = r_size
add_trailer ((hdr, vals) ∷ hdrs) r_size =
    add_trailer hdrs (r_size + (len hdr + eol_len) + values_size vals)

-- What is displayed, in pieces.
pub data Piece : Type 0 where
  request_line : (remote_addr method request_uri proto : String) → Piece
  header_line : (hdr : String) → List String → Piece
  decoding_error : Error → Piece
  body_title : (size : ℕ) → Piece
  body_text body_values : Bytes → Piece
  truncated : (size : ℕ) → Piece

header_lines : List Header → List Piece
header_lines [] = []
header_lines ((hdr, vals) ∷ hdrs) = header_line hdr vals ∷ header_lines hdrs

-- The part of the body that is displayed.
pub display_body : Display → Bytes → Bytes
display_body d body =
    if ltb_ℤ (pos 0) d.body_limit && ltb (pos_part d.body_limit) (length body)
    then take (pos_part d.body_limit) body
    else body

pub body_pieces : Display → (is_text : Bool) → Bytes → List Piece
body_pieces d is_text body =
    let shown = display_body d body in
    let truncated_size = length body - length shown in
    body_title (length body)
    ∷ (if is_text then body_text shown else body_values shown)
    ∷ (if ltb 0 truncated_size then truncated truncated_size ∷ [] else [])

pub message : Display → Handling → List Piece
unfolding body_pieces
message d h = elim h.err [
  | some e ↦ decoding_error e ∷ []
  | none ↦ elim h.body [
    | none ↦ []
    | some body ↦ if shows_body d then body_pieces d h.is_text body else []
  ]
]

abbrev pub is_error : Option Error → Bool
is_error none = false
is_error (some e) = true

pub display : Display → Request → Handling → List Piece
unfolding header_lines message
display d r h =
    (if is_error h.err || shows_request d
      then request_line r.remote_addr r.method r.request_uri r.proto ∷ []
      else [])
    ++ (if is_error h.err || shows_headers d then header_lines r.displayed_header else [])
    ++ message d h

pub record AuditLine : Type 0 where
  pub ts : ℕ
  pub remote_addr : String
  pub method : String
  pub request_uri : String
  pub proto : String
  pub size : ℕ

pub data Audit : Type 0 where
  audit_header : Audit
  audit_line : AuditLine → Audit

-- The variables of the package; `logged` is what the logger printed.
pub record Endpoint : Type 0 where
  pub traffic_byte_count : ℕ
  pub body_byte_count : ℕ
  pub request_count : ℕ
  pub audit_file : Option (List Audit)
  pub audit_file_header_displayed : Bool
  pub logged : List (List Piece)

write_audit : (displayed : Bool) → AuditLine → List Audit → List Audit
write_audit true line file = file ++ audit_line line ∷ []
write_audit false line file = file ++ audit_header ∷ audit_line line ∷ []

audit_by : Option (List Audit) → AuditLine → Endpoint → Endpoint
unfolding write_audit
audit_by none line ep = ep
audit_by (some file) line ep = record ep {
  audit_file = some (write_audit ep.audit_file_header_displayed line file);
  audit_file_header_displayed = true;
}

pub audit_of : (ts : ℕ) → Request → (size : ℕ) → AuditLine
audit_of ts r size = record {
  ts = ts;
  remote_addr = r.remote_addr;
  method = r.method;
  request_uri = r.request_uri;
  proto = r.proto;
  size = size;
}

-- The counters and the audit, of a request that was decoded.
pub account : (err : Option Error) → (ts : ℕ) → Request → Handling → Endpoint → Endpoint
unfolding audit_by
account (some e) ts r h ep = ep
account none ts r h ep =
    let size = add_trailer r.trailer h.r_size in
    audit_by ep.audit_file (audit_of ts r size) (record ep {
      traffic_byte_count = ep.traffic_byte_count + size;
      body_byte_count = ep.body_byte_count + h.b_size;
      request_count = ep.request_count + 1;
    })

log_pieces : List Piece → Endpoint → Endpoint
log_pieces [] ep = ep
log_pieces (p ∷ ps) ep = record ep { logged = ep.logged ++ (p ∷ ps) ∷ [] }

pub handled : Gunzip → Display → Request → Handling
handled gunzip d r = visit_all gunzip d r.header (begin r)

pub handle_func : Gunzip → Display → (ts : ℕ) → Request → Endpoint → Endpoint
unfolding log_pieces
handle_func gunzip d ts r ep =
    let h = handled gunzip d r in log_pieces (display d r h) (account h.err ts r h ep)
