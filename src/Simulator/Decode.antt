-- ===== src/Simulator/Decode.antt =====
-- The decoding of a body by its Content-Encoding in handleFunc, and the test of its Content-Type.
use Prim.Native.String.{String, len, slice}
use text.Mathlib.Text.{◌==◌ as str_eq}
use victoriametrics_importer.Prelude.{
  ℕ, Bool, false, not, ◌&&◌, ◌||◌, Option, none, some, List, [], ◌∷◌, ◌⊎◌, inl, inr, leb,
  if◌then◌else◌,
}
use victoriametrics_importer.Prelude.Int.{ℤ, pos, ltb_ℤ}

abbrev pub Bytes : Type 0
Bytes = List ℕ

pub data Error : Type 0 where
  read_failed : (e : ℕ) → Error
  gzip_failed : (e : ℕ) → Error
  unsupported_encoding : (val : String) → Error

-- What reading through gzip gives: no reader, or the bytes up to an error, if any.
abbrev pub Gunzip : Type 0
Gunzip = Bytes → ℕ ⊎ (Bytes × Option ℕ)

-- The levels of the display, `-1` for none; a level is compared with these.
pub record Display : Type 0 where
  pub level : ℤ
  pub body_limit : ℤ

abbrev pub shows_request : Display → Bool
shows_request d = not (ltb_ℤ d.level (pos 0))

abbrev pub shows_headers : Display → Bool
shows_headers d = not (ltb_ℤ d.level (pos 1))

abbrev pub shows_body : Display → Bool
shows_body d = not (ltb_ℤ d.level (pos 2))

unfoldable pub failed : Option ℕ → Option Error
failed none = none
failed (some e) = some (gzip_failed e)

-- `gzip.NewReader(b)`, and `io.ReadAll(gzipReader)`
unfoldable pub decode_by : ℕ ⊎ (Bytes × Option ℕ) → Bytes → Option Bytes × Option Error
unfolding failed
decode_by (inl e) body = (some body, some (gzip_failed e))
decode_by (inr (bytes, e)) body = (some bytes, failed e)

-- The switch on one value of Content-Encoding; `err` is the error so far.
unfoldable pub decode_value :
    Gunzip → Display → String → Bytes → Option Error → Option Bytes × Option Error
unfolding decode_by
decode_value gunzip d val body err =
    if str_eq val "gzip"
    then if shows_body d then decode_by (gunzip body) body else (some body, err)
    else if str_eq val ""
    then (some body, err)
    else (some body, some (unsupported_encoding val))

unfoldable pub unless_error :
    Option Bytes × Option Error → Option Bytes × Option Error → Option Bytes × Option Error
unless_error (body, none) rest = rest
unless_error (body, some e) rest = (body, some e)

-- The loop over the values of Content-Encoding, which an error ends, an earlier one too.
unfoldable pub decode_values :
    Gunzip → Display → List String → Option Bytes → Option Error → Option Bytes × Option Error
unfolding decode_value unless_error
decode_values gunzip d vals none err = (none, err)
decode_values gunzip d [] (some body) err = (some body, err)
decode_values gunzip d (val ∷ vals) (some body) err =
    let r = decode_value gunzip d val body err in
    unless_error r (decode_values gunzip d vals r.0 none)

-- `val[:5] == "text/"` or a form
is_text_type : String → Bool
is_text_type val =
    (leb 5 (len val) && str_eq (slice val 0 5) "text/")
    || str_eq val "application/x-www-form-urlencoded"

pub any_text : List String → Bool
unfolding is_text_type
any_text [] = false
any_text (val ∷ vals) = is_text_type val || any_text vals
