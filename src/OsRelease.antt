-- ===== src/OsRelease.antt =====
-- parseOsReleaseFile and GetOsReleaseInfo of vmi/internal/os_release_linux.go. Texts are ASCII bytes.
-- A file is its lines, as bufio.Scanner gives them, and the error that ends the scan, if any; the map
-- is a list with the last entry first.
mod Entries
mod Tests
use victoriametrics_importer.Prelude.{
  ℕ, zero, suc, ◌+◌, ◌-◌, Bool, true, false, ◌&&◌, ◌||◌, Option, none, some, List, [], ◌∷◌, ◌++◌,
  ◌⊎◌, inl, inr, ltb, leb, ◌==◌, if◌then◌else◌, length, get_or, take, drop,
}
use victoriametrics_importer.Prelude.Bytes.{bytes_eq}
use victoriametrics_importer.Prelude.Ascii.{trim_space, index, to_lower}

abbrev pub Bytes : Type 0
Bytes = List ℕ

abbrev pub equals : ℕ
equals = 61

abbrev pub quote : ℕ
quote = 34

abbrev pub OsRelease : Type 0
OsRelease = List (Bytes × Bytes)

abbrev pub lookup : Bytes → OsRelease → Option Bytes
lookup key [] = none
lookup key ((k, v) ∷ m) = let rest = lookup key m in if bytes_eq k key then some v else rest

-- `i <= 1 || i == len(line)-1`, where i is -1 if there is no `=`.
pub skipped : Option ℕ → Bytes → Bool
skipped none line = true
skipped (some i) line = leb i 1 || suc i == length line

pub strip_first : Bytes → Bytes
strip_first [] = []
strip_first (c ∷ cs) = if c == quote then cs else c ∷ cs

pub strip_last : Bytes → Bytes
strip_last val =
    let val_len = length val in
    if ltb 0 val_len && get_or val (val_len - 1) 0 == quote then take (val_len - 1) val else val

-- The entry of a key and its value, none if one of them is empty.
pub entry : (key val : Bytes) → Option (Bytes × Bytes)
entry [] val = none
entry (c ∷ cs) [] = none
entry (c ∷ cs) (v ∷ vs) = some (to_lower (c ∷ cs), v ∷ vs)

entry_at : Option ℕ → Bytes → Option (Bytes × Bytes)
entry_at none line = none
entry_at (some i) line =
    entry (trim_space (take i line)) (strip_last (strip_first (trim_space (drop (i + 1) line))))

pub parse_line : Bytes → Option (Bytes × Bytes)
unfolding entry_at
parse_line line = let i = index line equals in if skipped i line then none else entry_at i line

abbrev pub add_entry : Option (Bytes × Bytes) → OsRelease → OsRelease
add_entry none m = m
add_entry (some e) m = e ∷ m

-- The loop of the scanner.
pub scan : List Bytes → OsRelease → OsRelease
scan [] m = m
scan (line ∷ lines) m = scan lines (add_entry (parse_line line) m)

pub record File : Type 0 where
  pub lines : List Bytes
  pub err : Option ℕ

scanned : Option ℕ → OsRelease → ℕ ⊎ OsRelease
scanned (some e) m = inl e
scanned none m = inr m

-- An error of os.Open, or the file.
pub parse_os_release_file : ℕ ⊎ File → ℕ ⊎ OsRelease
unfolding scanned
parse_os_release_file (inl e) = inl e
parse_os_release_file (inr f) = scanned f.err (scan f.lines [])

first_of : ℕ ⊎ OsRelease → List ℕ ⊎ OsRelease → List ℕ ⊎ OsRelease
first_of (inr m) rest = inr m
first_of (inl e) (inr m) = inr m
first_of (inl e) (inl errs) = inl (e ∷ errs)

pub first_file : List (ℕ ⊎ File) → List ℕ ⊎ OsRelease
unfolding first_of
first_file [] = inl []
first_file (f ∷ fs) = first_of (parse_os_release_file f) (first_file fs)

-- "/etc/os-release", then "/usr/lib/os-release": the first that can be read, or both errors.
pub get_os_release_info : (etc usr_lib : ℕ ⊎ File) → List ℕ ⊎ OsRelease
get_os_release_info etc usr_lib = first_file (etc ∷ usr_lib ∷ [])
