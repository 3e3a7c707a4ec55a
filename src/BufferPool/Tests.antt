-- ===== src/BufferPool/Tests.antt =====
-- The theorems on the pool of buffers, at a pool of one buffer at most.
use victoriametrics_importer.Prelude.{◌≡◌, refl, none, some, List, [], ◌∷◌, ltb, inr, arith}
use victoriametrics_importer.Prelude.Int.{pos, pos_part}
use victoriametrics_importer.BufferPool.{
  BufPool, new_read_file_buf_pool, get_buf, get_buf_by, return_buf, File, read_file, Use, take_one,
  give_back, Shared, follow_all,
}
use victoriametrics_importer.BufferPool.Owners.{IsSound}
use victoriametrics_importer.BufferPool.Sharing.{follow_all-IsSound}
use victoriametrics_importer.BufferPool.Reading.{Reads, read_file-Reads}

abbrev small_pool : BufPool
small_pool = new_read_file_buf_pool (pos 1) (pos 2)

small_pool-IsSound : IsSound small_pool []
unfolding new_read_file_buf_pool
small_pool-IsSound = record { fits = omega arith; once = tt; made = tt; capped = λ h. omega arith }

abbrev unused : Shared
unused = record { bufs = small_pool; out = [] }

abbrev two_users : List Use
two_users = take_one ∷ take_one ∷ give_back 0 ∷ give_back 1 ∷ take_one ∷ []

two_users_end : (w : Shared) × (follow_all two_users unused ≡ some w)
unfolding follow_all get_buf get_buf_by new_read_file_buf_pool return_buf
two_users_end = (_, refl)

follow_all-IsSound_example : IsSound two_users_end.0.bufs two_users_end.0.out
follow_all-IsSound_example =
    follow_all-IsSound two_users unused two_users_end.0 small_pool-IsSound two_users_end.1

abbrev three_bytes : File
three_bytes = record { bytes = 7 ∷ 8 ∷ 9 ∷ []; stops_with = none }

read_file-Reads_example :
    Reads
      (ltb 0 (pos_part small_pool.max_read_size))
      (pos_part small_pool.max_read_size)
      three_bytes
      (read_file (inr three_bytes) small_pool)
read_file-Reads_example = read_file-Reads three_bytes small_pool
