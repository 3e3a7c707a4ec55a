-- ===== src/FlagUsage.antt =====
-- FormatFlagUsageWidth of vmi/internal/cmdline_utils.go: a usage message wrapped around a width.
-- Texts are ASCII bytes.
mod Wrap
mod Tests
use victoriametrics_importer.Prelude.{
  ℕ, zero, suc, ◌+◌, ◌≤◌, Bool, true, false, ◌&&◌, ◌||◌, List, [], ◌∷◌, ◌++◌, ltb, leb, ◌==◌,
  if◌then◌else◌, length,
}

abbrev pub Bytes : Type 0
Bytes = List ℕ

abbrev pub newline : ℕ
newline = 10

abbrev pub blank : ℕ
blank = 32

-- White space, as strings.Fields and strings.TrimSpace have it.
pub is_space : ℕ → Bool
is_space c = c == blank || (leb 9 c && leb c 13)

-- A word behind which others stand, unless it is empty.
pub push_word : Bytes × List Bytes → List Bytes
push_word ([], ws) = ws
push_word (c ∷ cs, ws) = (c ∷ cs) ∷ ws

-- The word that a text starts with, empty if it starts with white space, and the others.
pub words_at : Bytes → Bytes × List Bytes
words_at [] = ([], [])
words_at (c ∷ cs) =
    let rest = words_at cs in if is_space c then ([], push_word rest) else (c ∷ rest.0, rest.1)

-- strings.Fields; it gives the same for a text that strings.TrimSpace has trimmed.
pub fields : Bytes → List Bytes
fields s = push_word (words_at s)

-- The loop, behind the first word.
pub wrap_from : (width line_len : ℕ) → List Bytes → Bytes
wrap_from width line_len [] = []
wrap_from width line_len (word ∷ words) =
    let broken = wrap_from width (length word) words in
    let joined = wrap_from width (line_len + 1 + length word) words in
    if ltb width (line_len + length word + 1)
    then newline ∷ word ++ broken
    else blank ∷ word ++ joined

pub wrap : (width : ℕ) → List Bytes → Bytes
wrap width [] = []
wrap width (word ∷ words) = word ++ wrap_from width (length word) words

pub format_flag_usage_width : (usage : Bytes) → (width : ℕ) → Bytes
format_flag_usage_width usage width = wrap width (fields usage)

abbrev pub default_flag_usage_width : ℕ
default_flag_usage_width = 58

pub format_flag_usage : (usage : Bytes) → Bytes
format_flag_usage usage = format_flag_usage_width usage default_flag_usage_width
