-- ===== src/OsRelease/Entries.antt =====
-- Lines of the form KEY="value", and those that are not read.
use victoriametrics_importer.Prelude.{
  ℕ, take-append, drop-append_cons, suc, ◌+◌, ◌-◌, ◌≤◌, ◌<◌, ◌≡◌, refl, ap, ap₂, ◌∙◌, true, false,
  none, some, List, [], ◌∷◌, ◌++◌, inr, ltb, ◌==◌, if◌then◌else◌, length, length-append, get_or,
  drop, arith,
}
use victoriametrics_importer.Prelude.Sets.{has}
use victoriametrics_importer.Prelude.Ascii.{
  index-append, push_trimmed, trim_right, trim_space, to_lower,
}
use victoriametrics_importer.OsRelease.{
  Bytes, equals, quote, OsRelease, skipped, strip_first, strip_last, entry, entry_at, parse_line,
  add_entry, scan, scanned, parse_os_release_file,
}

abbrev pub quoted : Bytes → Bytes
quoted val = quote ∷ (val ++ quote ∷ [])

abbrev pub print_line : Bytes → Bytes → Bytes
print_line key val = key ++ equals ∷ quoted val

-- A key of two letters or more, without white space around it, and a value that is not empty.
pub record IsEntry (key val : Bytes) : Type 0 where
  pub long : 2 ≤ length key
  pub plain : has equals key ≡ false
  pub trimmed : trim_space key ≡ key
  pub value : 0 < length val

get_or-last : (s : Bytes) (b : ℕ) → get_or (s ++ b ∷ []) (length s) 0 ≡ b
get_or-last [] b = refl
get_or-last (c ∷ cs) b = get_or-last cs b

push-last : (c : ℕ) (s : Bytes) (b : ℕ) → push_trimmed c (s ++ b ∷ []) ≡ c ∷ (s ++ b ∷ [])
push-last c [] b = refl
push-last c (d ∷ ds) b = refl

trim_right-quote : (s : Bytes) → trim_right (s ++ quote ∷ []) ≡ s ++ quote ∷ []
trim_right-quote [] = refl
trim_right-quote (c ∷ cs) = ap (push_trimmed c) (trim_right-quote cs) ∙ push-last c cs quote

trim_space-quoted : (val : Bytes) → trim_space (quoted val) ≡ quoted val
trim_space-quoted val = trim_right-quote (quote ∷ val)

strip_last-quote : (val : Bytes) → strip_last (val ++ quote ∷ []) ≡ val
unfolding strip_last
strip_last-quote val =
    let size : length (val ++ quote ∷ []) - 1 ≡ length val =
      omega (arith, length-append val (quote ∷ [])) in
    let some_left : ltb 0 (length (val ++ quote ∷ [])) ≡ true =
      ground (arith, length-append val (quote ∷ [])) in
    let last : (get_or (val ++ quote ∷ []) (length val) 0 == quote) ≡ true =
      ap (λ c. c == quote) (get_or-last val quote) in
    rw (size, some_left, last) (take-append val (quote ∷ []))

entry-whole :
    (key val : Bytes) → 2 ≤ length key → 0 < length val → entry key val ≡ some (to_lower key, val)
unfolding entry
entry-whole [] val h k = absurd (omega (arith, h))
entry-whole (c ∷ cs) [] h k = absurd (omega (arith, k))
entry-whole (c ∷ cs) (v ∷ vs) h k = refl

entry_at-line :
    (key val : Bytes)
    → IsEntry key val
    → entry_at (some (length key)) (print_line key val) ≡ some (to_lower key, val)
unfolding entry_at strip_first
entry_at-line key val v =
    let next : length key + 1 ≡ suc (length key) = omega arith in
    let line = print_line key val in
    ap
      (λ k.
        entry (trim_space k) (strip_last (strip_first (trim_space (drop (length key + 1) line)))))
      (take-append key (equals ∷ quoted val))
    ∙ ap (λ n. entry (trim_space key) (strip_last (strip_first (trim_space (drop n line))))) next
    ∙ ap (λ t. entry (trim_space key) (strip_last (strip_first (trim_space t))))
        (drop-append_cons key (quoted val) equals)
    ∙ ap (λ t. entry (trim_space key) (strip_last (strip_first t))) (trim_space-quoted val)
    ∙ ap₂ entry v.trimmed (strip_last-quote val)
    ∙ entry-whole key val v.long v.value

-- The entry that a line is printed from is read back from it, its key in lower case.
pub parse_line-print_line :
    (key val : Bytes) → IsEntry key val → parse_line (print_line key val) ≡ some (to_lower key, val)
unfolding parse_line skipped
parse_line-print_line key val v =
    let at = index-append equals key (quoted val) v.plain in
    ap (λ i. if skipped i (print_line key val) then none else entry_at i (print_line key val)) at
    ∙ ap (λ b. if b then none else entry_at (some (length key)) (print_line key val)) kept
    ∙ entry_at-line key val v
  where
    kept : skipped (some (length key)) (print_line key val) ≡ false
    kept = ground (
      arith,
      v.long,
      v.value,
      length-append key (equals ∷ quoted val),
      length-append val (quote ∷ []),
    )

abbrev pub AllEntries : List (Bytes × Bytes) → Type 0
AllEntries [] = Unit {0}
AllEntries ((key, val) ∷ es) = IsEntry key val × AllEntries es

abbrev pub print_all : List (Bytes × Bytes) → List Bytes
print_all [] = []
print_all ((key, val) ∷ es) = print_line key val ∷ print_all es

-- The entries with their keys in lower case, in front of others, the last one first.
abbrev pub lowered : List (Bytes × Bytes) → OsRelease → OsRelease
lowered [] m = m
lowered ((key, val) ∷ es) m = lowered es ((to_lower key, val) ∷ m)

scan-print_all :
    (es : List (Bytes × Bytes)) (m : OsRelease)
    → AllEntries es
    → scan (print_all es) m ≡ lowered es m
unfolding scan
scan-print_all [] m h = refl
scan-print_all ((key, val) ∷ es) m h =
    ap (λ e. scan (print_all es) (add_entry e m)) (parse_line-print_line key val h.0)
    ∙ scan-print_all es ((to_lower key, val) ∷ m) h.1

-- A file of lines KEY="value", with keys of two letters or more that have no white space around them
-- and no equals sign, and values that are not empty: its map has exactly their entries, with the keys
-- in lower case, a later entry before an earlier one.
pub parse_os_release_file-print_all :
    (es : List (Bytes × Bytes))
    → AllEntries es
    → parse_os_release_file (inr (record { lines = print_all es; err = none }))
      ≡ inr (lowered es [])
unfolding parse_os_release_file scanned
parse_os_release_file-print_all es h = ap inr (scan-print_all es [] h)

-- A key of one letter is not read, whatever its value.
pub parse_line-one_letter :
    (c : ℕ) (val : Bytes) → (c == equals) ≡ false → parse_line (c ∷ equals ∷ val) ≡ none
unfolding parse_line skipped
parse_line-one_letter c val h = ground (arith, h)
