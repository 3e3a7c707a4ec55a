-- ===== src/Simulator/Errors.antt =====
-- Requests whose body cannot be read.
use text.Mathlib.Text.{◌==◌ as str_eq}
use Prim.Native.String.{String, len}
use victoriametrics_importer.Prelude.{
  ℕ, ◌+◌, ◌≡◌, refl, sym, ap, ap₂, arith, subst, ◌∙◌, Bool, true, false, not, ◌||◌, Option, none,
  some, List, [], ◌∷◌, inr, if◌then◌else◌,
}
use victoriametrics_importer.Simulator.Decode.{
  Bytes, Error, unsupported_encoding, Gunzip, Display, shows_body, decode_value, decode_by, failed,
  decode_values, read_failed, unless_error, any_text,
}
use victoriametrics_importer.Simulator.{
  Header, Request, Handling, read_body, request_line_size, begin, eol_len, values_size,
  take_decoded, look_at, visit, visit_all, is_error, handled, Endpoint, handle_func,
}
use victoriametrics_importer.Simulator.Sizes.{
  is_counted, body_size, body_by, fields_size, wire_size, counters, add_request,
  handle_func-counters,
}

abbrev IsError : Option Bytes × Option Error → Type 0
IsError r = is_error r.1 ≡ true

IsError-if :
    (b : Bool) (x y : Option Bytes × Option Error)
    → IsError x
    → IsError y
    → IsError (if b then x else y)
IsError-if true x y p q = p
IsError-if false x y p q = q

decode_value-error :
    (gunzip : Gunzip) (d : Display) (val : String) (body : Bytes) (e : Error)
    → shows_body d ≡ false
    → IsError (decode_value gunzip d val body (some e))
unfolding decode_value
decode_value-error gunzip d val body e h = rw h (
    IsError-if (str_eq val "gzip") (some body, some e)
      (if str_eq val "" then (some body, some e) else (some body, some (unsupported_encoding val)))
      refl
      (IsError-if (str_eq val "") (some body, some e) (some body, some (unsupported_encoding val))
        refl refl))

unless_error-error :
    (r rest : Option Bytes × Option Error) → IsError r → IsError (unless_error r rest)
unfolding unless_error
unless_error-error (body, none) rest h = absurd (cc h)
unless_error-error (body, some e) rest h = refl

pub decode_values-error :
    (gunzip : Gunzip) (d : Display) (vals : List String) (body : Option Bytes) (err : Option Error)
    → shows_body d ≡ false
    → is_error err ≡ true
    → IsError (decode_values gunzip d vals body err)
unfolding decode_values
decode_values-error gunzip d vals none err h k = k
decode_values-error gunzip d [] (some body) err h k = k
decode_values-error gunzip d (val ∷ vals) (some body) none h k = absurd (cc k)
decode_values-error gunzip d (val ∷ vals) (some body) (some e) h k =
    let r = decode_value gunzip d val body (some e) in
    unless_error-error r (decode_values gunzip d vals r.0 none)
      (decode_value-error gunzip d val body e h)

Failed-if :
    (b : Bool) (x y : Handling)
    → is_error x.err ≡ true
    → is_error y.err ≡ true
    → is_error (if b then x else y).err ≡ true
Failed-if true x y p q = p
Failed-if false x y p q = q

look_at-error :
    (gunzip : Gunzip) (d : Display) (hdr : Header) (h : Handling)
    → shows_body d ≡ false
    → is_error h.err ≡ true
    → is_error (look_at gunzip d hdr h).err ≡ true
unfolding look_at take_decoded
look_at-error gunzip d (hdr, vals) h s k =
    let decoded = take_decoded (decode_values gunzip d vals h.body h.err) h in
    let typed = record h { is_text = any_text vals } in
    Failed-if (str_eq hdr "Content-Encoding") decoded
      (if str_eq hdr "Content-Type" then typed else h)
      (decode_values-error gunzip d vals h.body h.err s k)
      (Failed-if (str_eq hdr "Content-Type") typed h k k)

visit_all-error :
    (gunzip : Gunzip) (d : Display) (hdrs : List Header) (h : Handling)
    → shows_body d ≡ false
    → is_error h.err ≡ true
    → is_error (visit_all gunzip d hdrs h).err ≡ true
unfolding visit_all visit
visit_all-error gunzip d [] h s k = k
visit_all-error gunzip d ((hdr, vals) ∷ hdrs) h s k =
    let g = record h { r_size = h.r_size + (len hdr + eol_len) + values_size vals } in
    visit_all-error gunzip d hdrs (visit gunzip d (hdr, vals) h) s
      (look_at-error gunzip d (hdr, vals) g s k)

read_body-error :
    (has_body : Bool) (bytes : Bytes) (e n : ℕ)
    → has_body ≡ true
    → is_error (read_body has_body (bytes, some e) n).err ≡ true
unfolding read_body
read_body-error false bytes e n h = absurd (cc h)
read_body-error true bytes e n h = refl

-- As long as bodies are not displayed, a request with a body that cannot be read whole is never
-- counted, whatever its headers.
pub handled-broken_body :
    (gunzip : Gunzip) (d : Display) (r : Request) (bytes : Bytes) (e : ℕ)
    → shows_body d ≡ false
    → (str_eq r.method "PUT" || str_eq r.method "POST") ≡ true
    → r.body ≡ (bytes, some e)
    → is_counted gunzip d r ≡ false
unfolding handled begin
handled-broken_body gunzip d r bytes e s m b =
    let failed =
      subst
        (λ x.
          is_error
            (read_body (str_eq r.method "PUT" || str_eq r.method "POST") x
              (request_line_size r)).err
          ≡ true)
        (sym b)
        (read_body-error (str_eq r.method "PUT" || str_eq r.method "POST") bytes e
          (request_line_size r) m) in
    ap not (visit_all-error gunzip d r.header (begin r) s failed)

abbrev pub gzip_header : List Header
gzip_header = ("Content-Encoding", "gzip" ∷ []) ∷ []

decode_values-hidden :
    (gunzip : Gunzip) (d : Display) (bytes plain : Bytes) (err : Error)
    → shows_body d ≡ true
    → gunzip bytes ≡ inr (plain, none)
    → decode_values gunzip d ("gzip" ∷ []) (some bytes) (some err) ≡ (some plain, none)
unfolding decode_values decode_value decode_by failed unless_error
decode_values-hidden gunzip d bytes plain err s z = rw (s, z) refl

hidden_error-counted :
    (gunzip : Gunzip) (d : Display) (r : Request) (bytes plain : Bytes) (e : ℕ)
    → shows_body d ≡ true
    → (str_eq r.method "PUT" || str_eq r.method "POST") ≡ true
    → r.body ≡ (bytes, some e)
    → r.header ≡ gzip_header
    → gunzip bytes ≡ inr (plain, none)
    → (is_counted gunzip d r ≡ true) × (body_size r ≡ 0)
unfolding handled begin visit_all visit look_at take_decoded read_body
hidden_error-counted gunzip d r bytes plain e s m b h z = (
  ap
        (λ hs. not (
          is_error
            (visit_all gunzip d hs (
              read_body (str_eq r.method "PUT" || str_eq r.method "POST") r.body
                (request_line_size r))).err))
        h
      ∙ ap
          (λ x. not (
            is_error
              (visit_all gunzip d gzip_header (
                read_body (str_eq r.method "PUT" || str_eq r.method "POST") x
                  (request_line_size r))).err))
          b
      ∙ ap
          (λ x. not (
            is_error
              (visit_all gunzip d gzip_header
                (read_body x (bytes, some e) (request_line_size r))).err))
          m
      ∙ ap (λ x. not (is_error x.1))
          (decode_values-hidden gunzip d bytes plain (read_failed e) s z),
  ap (body_by (str_eq r.method "PUT" || str_eq r.method "POST")) b
      ∙ ap (λ x. body_by x (bytes, some e)) m,
)

-- A PUT or POST request whose body breaks off, where bodies are displayed, the only header is the
-- Content-Encoding gzip, and the part of the body that came is a whole gzip stream: decoding it
-- overwrites the error, so that the request is counted, with the bytes of its request line, its headers
-- and its trailer, but with none of its body.
pub handle_func-hidden_error :
    (gunzip : Gunzip) (d : Display) (ts : ℕ) (r : Request) (ep : Endpoint) (bytes plain : Bytes)
    (e : ℕ)
    → shows_body d ≡ true
    → (str_eq r.method "PUT" || str_eq r.method "POST") ≡ true
    → r.body ≡ (bytes, some e)
    → r.header ≡ gzip_header
    → gunzip bytes ≡ inr (plain, none)
    → counters (handle_func gunzip d ts r ep) ≡ (
      ep.traffic_byte_count + (request_line_size r + fields_size r.header + fields_size r.trailer),
      ep.body_byte_count,
      ep.request_count + 1,
    )
handle_func-hidden_error gunzip d ts r ep bytes plain e s m b h z =
    let (counted, empty) = hidden_error-counted gunzip d r bytes plain e s m b h z in
    let total : wire_size r ≡ request_line_size r + fields_size r.header + fields_size r.trailer =
      omega (arith, empty) in
    let none_more : ep.body_byte_count + body_size r ≡ ep.body_byte_count = omega (arith, empty) in
    handle_func-counters gunzip d ts r ep
    ∙ ap (λ c. add_request c r (counters ep)) counted
    ∙ ap₂ (λ x y. (ep.traffic_byte_count + x, y, ep.request_count + 1)) total none_more
