-- ===== src/OsRelease/Tests.antt =====
-- The line ID="debian", and its file.
use victoriametrics_importer.Prelude.{◌≡◌, refl, none, [], ◌∷◌, inl, inr, arith}
use victoriametrics_importer.OsRelease.{
  Bytes, parse_line, skipped, entry_at, strip_first, strip_last, entry, scan, scanned,
  parse_os_release_file, first_of, first_file, get_os_release_info,
}
use victoriametrics_importer.OsRelease.Entries.{
  IsEntry, print_line, print_all, lowered, parse_os_release_file-print_all,
}

-- "ID" and "debian"
abbrev id : Bytes
id = 73 ∷ 68 ∷ []

abbrev debian : Bytes
debian = 100 ∷ 101 ∷ 98 ∷ 105 ∷ 97 ∷ 110 ∷ []

id-IsEntry : IsEntry id debian
id-IsEntry = record { long = omega arith; plain = refl; trimmed = refl; value = omega arith }

parse_os_release_file-print_all_example :
    parse_os_release_file (inr (record { lines = print_all ((id, debian) ∷ []); err = none }))
    ≡ inr (lowered ((id, debian) ∷ []) [])
parse_os_release_file-print_all_example =
    parse_os_release_file-print_all ((id, debian) ∷ []) (id-IsEntry, tt)

second_file :
    get_os_release_info (inl 2) (inr (record { lines = print_line id debian ∷ []; err = none }))
    ≡ inr ((105 ∷ 100 ∷ [], debian) ∷ [])
unfolding get_os_release_info first_file parse_os_release_file scanned first_of scan parse_line
    skipped entry_at strip_first strip_last entry
second_file = refl
