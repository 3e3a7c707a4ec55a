-- ===== src/Simulator/Audits.antt =====
-- The audit file over a run of requests.
use mathlib.Core.List.{append-nil, append_assoc}
use mathlib.Core.Option.{some_inj}
use victoriametrics_importer.Prelude.{
  ℕ, ◌+◌, ◌≡◌, refl, sym, ap, subst, ◌∙◌, Bool, true, false, not, ◌&&◌, Option, none, some, List,
  [], ◌∷◌, ◌++◌, map,
}
use victoriametrics_importer.Simulator.Decode.{Error, Gunzip, Display}
use victoriametrics_importer.Simulator.{
  Request, Handling, is_error, Endpoint, Audit, audit_header, audit_line, AuditLine, write_audit,
  audit_by, audit_of, account, Piece, log_pieces, display, handled, handle_func, add_trailer,
}
use victoriametrics_importer.Simulator.Sizes.{wire_size, handled-sizes}
use victoriametrics_importer.Simulator.Counted.{is_map, is_good, is_counted-is_good, and_both}

-- The file for some lines: a header goes before the first.
abbrev pub file_of : List AuditLine → List Audit
file_of [] = []
file_of (l ∷ ls) = audit_header ∷ audit_line l ∷ map audit_line ls

abbrev pub is_started : List AuditLine → Bool
is_started [] = false
is_started (l ∷ ls) = true

pub record IsAudit (ep : Endpoint) (lines : List AuditLine) : Type 0 where
  pub file : ep.audit_file ≡ some (file_of lines)
  pub header : ep.audit_file_header_displayed ≡ is_started lines

-- A line for each request with no body to read or with a good one, with the size of the whole request.
abbrev line_for : (is_counted : Bool) → (ts : ℕ) → Request → List AuditLine
line_for true ts r = audit_of ts r (wire_size r) ∷ []
line_for false ts r = []

abbrev pub lines_for : Gunzip → Display → List (ℕ × Request) → List AuditLine
lines_for gunzip d [] = []
lines_for gunzip d ((ts, r) ∷ rs) = line_for (is_good gunzip d r) ts r ++ lines_for gunzip d rs

-- The headers of all requests are maps.
abbrev pub all_maps : List (ℕ × Request) → Bool
all_maps [] = true
all_maps ((ts, r) ∷ rs) = is_map r.header && all_maps rs

abbrev pub serve : Gunzip → Display → List (ℕ × Request) → Endpoint → Endpoint
serve gunzip d [] ep = ep
serve gunzip d ((ts, r) ∷ rs) ep = serve gunzip d rs (handle_func gunzip d ts r ep)

map-append :
    (ls : List AuditLine) (l : AuditLine)
    → map audit_line ls ++ audit_line l ∷ [] ≡ map audit_line (ls ++ l ∷ [])
map-append [] l = refl
map-append (x ∷ ls) l = ap (λ t. audit_line x ∷ t) (map-append ls l)

write_audit-file :
    (lines : List AuditLine) (l : AuditLine)
    → write_audit (is_started lines) l (file_of lines) ≡ file_of (lines ++ l ∷ [])
unfolding write_audit
write_audit-file [] l = refl
write_audit-file (x ∷ ls) l = ap (λ t. audit_header ∷ audit_line x ∷ t) (map-append ls l)

is_started-append : (lines : List AuditLine) (l : AuditLine) → true ≡ is_started (lines ++ l ∷ [])
is_started-append [] l = refl
is_started-append (x ∷ ls) l = refl

audit_by-IsAudit :
    (file : Option (List Audit)) (lines : List AuditLine) (l : AuditLine) (ep : Endpoint)
    → file ≡ some (file_of lines)
    → ep.audit_file_header_displayed ≡ is_started lines
    → IsAudit (audit_by file l ep) (lines ++ l ∷ [])
unfolding audit_by
audit_by-IsAudit none lines l ep f h = absurd (cc f)
audit_by-IsAudit (some file) lines l ep f h = record {
  file =
      ap (λ x. some (write_audit x l file)) h
      ∙ ap (λ x. some (write_audit (is_started lines) l x)) (some_inj.0 f)
      ∙ ap some (write_audit-file lines l);
  header = is_started-append lines l;
}

account-IsAudit :
    (err : Option Error) (ts : ℕ) (r : Request) (h : Handling) (ep : Endpoint)
    (lines : List AuditLine)
    → add_trailer r.trailer h.r_size ≡ wire_size r
    → IsAudit ep lines
    → IsAudit (account err ts r h ep) (lines ++ line_for (not (is_error err)) ts r)
unfolding account
account-IsAudit (some e) ts r h ep lines s a = subst (IsAudit ep) (sym (append-nil lines)) a
account-IsAudit none ts r h ep lines s a =
    let size = add_trailer r.trailer h.r_size in
    let counted = record ep {
      traffic_byte_count = ep.traffic_byte_count + size;
      body_byte_count = ep.body_byte_count + h.b_size;
      request_count = ep.request_count + 1;
    } in
    subst
      (λ x.
        IsAudit (audit_by ep.audit_file (audit_of ts r size) counted)
          (lines ++ audit_of ts r x ∷ []))
      s (audit_by-IsAudit ep.audit_file lines (audit_of ts r size) counted a.file a.header)

log_pieces-IsAudit :
    (ps : List Piece) (ep : Endpoint) (lines : List AuditLine)
    → IsAudit ep lines
    → IsAudit (log_pieces ps ep) lines
unfolding log_pieces
log_pieces-IsAudit [] ep lines a = a
log_pieces-IsAudit (p ∷ ps) ep lines a = record { file = a.file; header = a.header }

serve-from :
    (gunzip : Gunzip) (d : Display) (rs : List (ℕ × Request)) (ep : Endpoint)
    (lines : List AuditLine)
    → all_maps rs ≡ true
    → IsAudit ep lines
    → IsAudit (serve gunzip d rs ep) (lines ++ lines_for gunzip d rs)
unfolding handle_func
serve-from gunzip d [] ep lines m a = subst (IsAudit ep) (sym (append-nil lines)) a
serve-from gunzip d ((ts, r) ∷ rs) ep lines m a =
    let (here, later) = and_both (is_map r.header) (all_maps rs) m in
    let h = handled gunzip d r in
    let now =
      subst (λ b. IsAudit (account h.err ts r h ep) (lines ++ line_for b ts r))
        (is_counted-is_good gunzip d r here)
        (account-IsAudit h.err ts r h ep lines (handled-sizes gunzip d r).0 a) in
    subst (IsAudit (serve gunzip d ((ts, r) ∷ rs) ep))
      (append_assoc lines (line_for (is_good gunzip d r) ts r) (lines_for gunzip d rs))
      (serve-from gunzip d rs (handle_func gunzip d ts r ep)
        (lines ++ line_for (is_good gunzip d r) ts r) later
        (log_pieces-IsAudit (display d r h) (account h.err ts r h ep)
          (lines ++ line_for (is_good gunzip d r) ts r) now))

-- An audit file that is empty at first holds, after a run of requests that name no header twice, its
-- header once, before anything else, and in order a line, with the size of the whole request, for each
-- request with no body to read or with a good one; it stays empty if there is none. Good is a body that
-- was read whole, if its encodings are gzip or none and, where bodies are displayed, gunzip takes them
-- off without an error; where bodies are displayed and gzip is its first encoding, a body that breaks
-- off is judged by the part that came.
pub serve-IsAudit :
    (gunzip : Gunzip) (d : Display) (rs : List (ℕ × Request)) (ep : Endpoint)
    → all_maps rs ≡ true
    → ep.audit_file ≡ some []
    → ep.audit_file_header_displayed ≡ false
    → IsAudit (serve gunzip d rs ep) (lines_for gunzip d rs)
serve-IsAudit gunzip d rs ep m f h =
    serve-from gunzip d rs ep [] m (record { file = f; header = h })
