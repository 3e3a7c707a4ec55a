-- ===== src/Compressor/Create/Tests.antt =====
-- The pool of the default configuration.
use Prim.Native.String.{String}
use victoriametrics_importer.Prelude.{ℕ, none, ◌⊎◌, inr}
use victoriametrics_importer.Prelude.Int.{ℤ, pos}
use victoriametrics_importer.Compressor.Create.{
  default_compressor_pool_config, new_compressor_pool, IsOpened, new_compressor_pool-IsOpened,
}

abbrev ram_in_bytes : String → ℕ ⊎ ℤ
ram_in_bytes size = inr (pos 65536)

new_compressor_pool-IsOpened_example :
    IsOpened ram_in_bytes 8 default_compressor_pool_config (new_compressor_pool ram_in_bytes 8 none)
new_compressor_pool-IsOpened_example = new_compressor_pool-IsOpened ram_in_bytes 8 none
