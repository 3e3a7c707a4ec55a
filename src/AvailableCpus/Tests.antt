-- ===== src/AvailableCpus/Tests.antt =====
-- Six processors of eight.
use victoriametrics_importer.Prelude.{ℕ, ◌≡◌, refl, min, some, none, List, [], ◌∷◌, arith}
use victoriametrics_importer.AvailableCpus.{count_mask, count_masks, get_available_cpu_count}
use victoriametrics_importer.AvailableCpus.Counts.{total, get_available_cpu_count-ones}

abbrev six : List ℕ
six = 219 ∷ 0 ∷ []

six_are_available : get_available_cpu_count (some six) 8 ≡ 6
unfolding get_available_cpu_count count_masks count_mask
six_are_available = refl

get_available_cpu_count-ones_example :
    (get_available_cpu_count (some six) 8 ≡ min (total six) 8)
    × (get_available_cpu_count none 8 ≡ 8)
get_available_cpu_count-ones_example =
    get_available_cpu_count-ones six 8 (omega arith, (omega arith, tt))
