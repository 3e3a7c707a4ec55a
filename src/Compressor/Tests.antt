-- ===== src/Compressor/Tests.antt =====
-- The theorems on the compressors, at a codec that joins the writes and has a fixed limit.
use victoriametrics_importer.Prelude.{ℕ, ◌<◌, refl, true, false, some, List, [], ◌∷◌, arith}
use victoriametrics_importer.Compressor.{Codec, Received, buffer, closed, timeout, start_loop, run}
use victoriametrics_importer.Compressor.Batches.{fed}
use victoriametrics_importer.Compressor.Delivery.{Delivers, run-Delivers}

-- A batch is sent at three bytes; the factor does not change.
abbrev plain_codec : Codec ℕ
plain_codec = record {
  gzip = λ bs. 31 ∷ [];
  next_factor = λ read sent f. f;
  read_byte_limit = λ f. 3;
}

three-positive : ℕ → 0 < 3
three-positive f = omega arith

abbrev some_traffic : List Received
some_traffic =
    buffer (some (1 ∷ 2 ∷ [])) true true
    ∷ timeout true
    ∷ buffer (some (3 ∷ 4 ∷ [])) true false
    ∷ buffer (some (5 ∷ [])) true true
    ∷ closed true
    ∷ []

run-Delivers_example :
    Delivers plain_codec three-positive
      (fed some_traffic)
      (run ℕ plain_codec some_traffic (start_loop ℕ true 5 2))
run-Delivers_example =
    run-Delivers plain_codec three-positive some_traffic 5 2 (refl, (refl, (refl, tt)))
