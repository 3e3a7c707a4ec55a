-- ===== src/Simulator/Counted.antt =====
-- Which requests are counted, described without the loop over the headers.
use Prim.Native.String.{String}
use text.Mathlib.Text.{◌==◌ as str_eq}
use text.Mathlib.TextEquality.{eq_iff}
use victoriametrics_importer.Prelude.{
  ℕ, zero, suc, ◌≡◌, refl, sym, ap, ◌∙◌, Bool, true, false, not, ◌&&◌, ◌||◌, Option, none, some,
  List, [], ◌∷◌, ◌⊎◌, inl, inr, if◌then◌else◌, Bool-cases,
}
use victoriametrics_importer.Simulator.Decode.{
  Bytes, Error, read_failed, Gunzip, Display, shows_body, failed, decode_by, decode_value,
  unless_error, decode_values,
}
use victoriametrics_importer.Simulator.{
  Header, Request, Handling, read_body, begin, request_line_size, take_decoded, look_at, visit,
  visit_all, is_error, handled,
}
use victoriametrics_importer.Simulator.Sizes.{is_counted}
use victoriametrics_importer.Simulator.Errors.{decode_values-error}

-- The values of Content-Encoding.
abbrev pub encoding_of : List Header → List String
encoding_of [] = []
encoding_of ((hdr, vals) ∷ hdrs) = if str_eq hdr "Content-Encoding" then vals else encoding_of hdrs

abbrev pub names_no : String → List Header → Bool
names_no name [] = true
names_no name ((hdr, vals) ∷ hdrs) = not (str_eq hdr name) && names_no name hdrs

-- The headers are those of a Go map, which has no key twice.
abbrev pub is_map : List Header → Bool
is_map [] = true
is_map ((hdr, vals) ∷ hdrs) = names_no hdr hdrs && is_map hdrs

-- Each value is "gzip" or empty.
abbrev pub all_known : List String → Bool
all_known [] = true
all_known (val ∷ vals) = (str_eq val "gzip" || str_eq val "") && all_known vals

-- How often the body is compressed.
abbrev pub layers : List String → ℕ
layers [] = 0
layers (val ∷ vals) = if str_eq val "gzip" then suc (layers vals) else layers vals

-- The bytes, where gunzip reads the stream to its end.
abbrev pub whole_stream : ℕ ⊎ (Bytes × Option ℕ) → Option Bytes
whole_stream (inl e) = none
whole_stream (inr (plain, some e)) = none
whole_stream (inr (plain, none)) = some plain

-- Gunzip takes that many layers off, without an error.
abbrev pub unpacks : Gunzip → ℕ → Bytes → Bool
unpacks gunzip zero bytes = true
unpacks gunzip (suc n) bytes = elim (whole_stream (gunzip bytes)) [
  | none ↦ false
  | some plain ↦ unpacks gunzip n plain
]

-- Whether the first value is "gzip".
abbrev pub gzip_first : List String → Bool
gzip_first [] = false
gzip_first (val ∷ vals) = str_eq val "gzip"

-- Only known encodings, which are taken off where bodies are displayed.
abbrev pub decodes : Gunzip → (shown : Bool) → List String → Bytes → Bool
decodes gunzip true vals bytes = all_known vals && unpacks gunzip (layers vals) bytes
decodes gunzip false vals bytes = all_known vals

-- A body that is read can be decoded, and was read whole. Where bodies are displayed and gzip is its
-- first encoding, the part of it that came is enough.
abbrev pub is_good_by : (has_body : Bool) → Gunzip → Bool → List String → Bytes × Option ℕ → Bool
is_good_by false gunzip shown vals read = true
is_good_by true gunzip shown vals (bytes, none) = decodes gunzip shown vals bytes
is_good_by true gunzip true vals (bytes, some e) = gzip_first vals && decodes gunzip true vals bytes
is_good_by true gunzip false vals (bytes, some e) = false

abbrev pub is_good : Gunzip → Display → Request → Bool
is_good gunzip d r =
    is_good_by (str_eq r.method "PUT" || str_eq r.method "POST") gunzip (shows_body d)
      (encoding_of r.header) r.body

abbrev ends_well : Option Bytes × Option Error → Bool
ends_well r = not (is_error r.1)

and_false : (b : Bool) → false ≡ (b && false)
and_false true = refl
and_false false = refl

pub and_both : (a b : Bool) → (a && b) ≡ true → (a ≡ true) × (b ≡ true)
and_both true b e = (refl, e)
and_both false b e = absurd (cc e)

not_and : (a b : Bool) → (not a && b) ≡ true → (a ≡ false) × (b ≡ true)
not_and true b e = absurd (cc e)
not_and false b e = (refl, e)

module _ (gunzip : Gunzip) (d : Display) where
  -- One layer, whatever error there was before.
  layer :
      (z : ℕ ⊎ (Bytes × Option ℕ)) (vals : List String) (body : Bytes)
      → ((plain : Bytes)
          → ends_well (decode_values gunzip d vals (some plain) none)
            ≡ (all_known vals && unpacks gunzip (layers vals) plain))
      → ends_well
          (unless_error (decode_by z body) (decode_values gunzip d vals (decode_by z body).0 none))
        ≡ (all_known vals && (elim (whole_stream z) [
          | none ↦ false
          | some plain ↦ unpacks gunzip (layers vals) plain
        ]))
  unfolding decode_by failed unless_error
  layer (inl e) vals body rest = and_false (all_known vals)
  layer (inr (plain, some e)) vals body rest = and_false (all_known vals)
  layer (inr (plain, none)) vals body rest = rest plain

  decode_values-shown :
      (vals : List String) (bytes : Bytes)
      → shows_body d ≡ true
      → ends_well (decode_values gunzip d vals (some bytes) none)
        ≡ (all_known vals && unpacks gunzip (layers vals) bytes)
  unfolding decode_values decode_value unless_error
  decode_values-shown [] bytes s = refl
  decode_values-shown (val ∷ vals) bytes s = elim (Bool-cases (str_eq val "gzip")) [
    | inl g ↦
        rw (g, s) (layer (gunzip bytes) vals bytes (λ plain. decode_values-shown vals plain s))
    | inr g ↦ elim (Bool-cases (str_eq val "")) [
      | inl z ↦ rw (g, z) (decode_values-shown vals bytes s)
      | inr z ↦ rw (g, z) refl
    ]
  ]

  decode_values-hiding :
      (vals : List String) (bytes : Bytes) (err : Error)
      → shows_body d ≡ true
      → ends_well (decode_values gunzip d vals (some bytes) (some err))
        ≡ (gzip_first vals && (all_known vals && unpacks gunzip (layers vals) bytes))
  unfolding decode_values decode_value unless_error
  decode_values-hiding [] bytes err s = refl
  decode_values-hiding (val ∷ vals) bytes err s = elim (Bool-cases (str_eq val "gzip")) [
    | inl g ↦
        rw (g, s) (layer (gunzip bytes) vals bytes (λ plain. decode_values-shown vals plain s))
    | inr g ↦ elim (Bool-cases (str_eq val "")) [ inl z ↦ rw (g, z) refl | inr z ↦ rw (g, z) refl ]
  ]

  decode_values-quiet :
      (vals : List String) (bytes : Bytes)
      → shows_body d ≡ false
      → ends_well (decode_values gunzip d vals (some bytes) none) ≡ all_known vals
  unfolding decode_values decode_value unless_error
  decode_values-quiet [] bytes s = refl
  decode_values-quiet (val ∷ vals) bytes s = elim (Bool-cases (str_eq val "gzip")) [
    | inl g ↦ rw (g, s) (decode_values-quiet vals bytes s)
    | inr g ↦ elim (Bool-cases (str_eq val "")) [
      | inl z ↦ rw (g, z) (decode_values-quiet vals bytes s)
      | inr z ↦ rw (g, z) refl
    ]
  ]

  abbrev state : Handling → Option Bytes × Option Error
  state h = (h.body, h.err)

  -- A header that is not Content-Encoding.
  passed :
      (hdr : String) (vals : List String) (h : Handling)
      → str_eq hdr "Content-Encoding" ≡ false
      → state (visit gunzip d (hdr, vals) h) ≡ state h
  unfolding visit look_at
  passed hdr vals h other = elim (Bool-cases (str_eq hdr "Content-Type")) [
    | inl e ↦ rw (other, e) refl
    | inr e ↦ rw (other, e) refl
  ]

  taken :
      (vals : List String) (h : Handling)
      → state (visit gunzip d ("Content-Encoding", vals) h)
        ≡ decode_values gunzip d vals h.body h.err
  unfolding visit look_at take_decoded
  taken vals h = refl

  visit_all-absent :
      (hdrs : List Header) (h : Handling)
      → names_no "Content-Encoding" hdrs ≡ true
      → state (visit_all gunzip d hdrs h) ≡ state h
  unfolding visit_all
  visit_all-absent [] h n = refl
  visit_all-absent ((hdr, vals) ∷ hdrs) h n =
      let parts = not_and (str_eq hdr "Content-Encoding") (names_no "Content-Encoding" hdrs) n in
      visit_all-absent hdrs (visit gunzip d (hdr, vals) h) parts.1 ∙ passed hdr vals h parts.0

  no_values :
      (body : Option Bytes) (err : Option Error)
      → ◌≡◌ {A = Option Bytes × Option Error} (body, err) (decode_values gunzip d [] body err)
  unfolding decode_values
  no_values none err = refl
  no_values (some body) err = refl

  -- The body and the error behind the headers are what the loop over the values gives.
  visit_all-state :
      (hdrs : List Header) (h : Handling)
      → is_map hdrs ≡ true
      → state (visit_all gunzip d hdrs h) ≡ decode_values gunzip d (encoding_of hdrs) h.body h.err
  unfolding visit_all
  visit_all-state [] h m = no_values h.body h.err
  visit_all-state ((hdr, vals) ∷ hdrs) h m =
      let parts = and_both (names_no hdr hdrs) (is_map hdrs) m in
      let next = visit gunzip d (hdr, vals) h in
      elim (Bool-cases (str_eq hdr "Content-Encoding")) [
        | inl e ↦
            let named = (eq_iff hdr "Content-Encoding").0 e in
            visit_all-absent hdrs next (ap (λ x. names_no x hdrs) (sym named) ∙ parts.0)
            ∙ ap (λ x. state (visit gunzip d (x, vals) h)) named
            ∙ taken vals h
            ∙ ap (λ b. decode_values gunzip d (if b then vals else encoding_of hdrs) h.body h.err)
                (sym e)
        | inr e ↦
            visit_all-state hdrs next parts.1
            ∙ ap (λ x. decode_values gunzip d (encoding_of hdrs) x.0 x.1) (passed hdr vals h e)
            ∙ ap (λ b. decode_values gunzip d (if b then vals else encoding_of hdrs) h.body h.err)
                (sym e)
      ]

  by_body :
      (has_body : Bool) (vals : List String) (read : Bytes × Option ℕ) (n : ℕ)
      → let h = read_body has_body read n in
        ends_well (decode_values gunzip d vals h.body h.err)
        ≡ is_good_by has_body gunzip (shows_body d) vals read
  unfolding read_body decode_values
  by_body false vals read n = refl
  by_body true vals (bytes, none) n = elim (Bool-cases (shows_body d)) [
    | inl s ↦ decode_values-shown vals bytes s ∙ ap (λ b. decodes gunzip b vals bytes) (sym s)
    | inr s ↦ decode_values-quiet vals bytes s ∙ ap (λ b. decodes gunzip b vals bytes) (sym s)
  ]
  by_body true vals (bytes, some e) n = elim (Bool-cases (shows_body d)) [
    | inl s ↦
        decode_values-hiding vals bytes (read_failed e) s
        ∙ ap (λ b. is_good_by true gunzip b vals (bytes, some e)) (sym s)
    | inr s ↦
        ap not (decode_values-error gunzip d vals (some bytes) (some (read_failed e)) s refl)
        ∙ ap (λ b. is_good_by true gunzip b vals (bytes, some e)) (sym s)
  ]

  -- A request is counted exactly if its body, where it is read, came whole and could be decoded, or
  -- the part of it that came could be, which hides that the rest is missing.
  pub is_counted-is_good :
      (r : Request) → is_map r.header ≡ true → is_counted gunzip d r ≡ is_good gunzip d r
  unfolding handled begin
  is_counted-is_good r m =
      ap ends_well (visit_all-state r.header (begin r) m)
      ∙ by_body (str_eq r.method "PUT" || str_eq r.method "POST") (encoding_of r.header) r.body
          (request_line_size r)
