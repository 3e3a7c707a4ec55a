-- ===== src/Compressor/Create.antt =====
-- NewCompressorPool of vmi/internal/compressor_pool.go, with its configuration, and the operations that
-- the generators use: GetBuf, ReturnBuf, QueueBuf and GetTargetSize. units.RAMInBytes is an argument.
mod Tests
use Prim.Native.String.{String}
use victoriametrics_importer.Prelude.{
  ℕ, suc, ◌+◌, ◌≤◌, ◌<◌, ◌≡◌, refl, Bool, true, false, not, ◌||◌, Option, none, some, List, [], ◌∷◌,
  ◌++◌, ◌⊎◌, inl, inr, ltb, if◌then◌else◌, length, arith, Bool-cases,
}
use victoriametrics_importer.Prelude.Int.{ℤ, pos, negsuc, pos_part, ltb_ℤ}
use victoriametrics_importer.BufferPool.{BufPool, new_read_file_buf_pool, get_buf, return_buf}
use victoriametrics_importer.BufferPool.Owners.{IsSound}
use victoriametrics_importer.Compressor.{PoolState, created, num_compressors, max_num_compressors}

pub record PoolConfig : Type 0 where
  pub num_compressors : ℤ
  pub buffer_pool_max_size : ℤ
  pub metrics_queue_size : ℤ
  pub compression_level : ℤ
  pub batch_target_size : String
  pub flush_interval : ℤ

pub default_compressor_pool_config : PoolConfig
default_compressor_pool_config = record {
  num_compressors = negsuc 0;
  buffer_pool_max_size = pos 64;
  metrics_queue_size = pos 64;
  compression_level = negsuc 0;
  batch_target_size = "64k";
  flush_interval = pos 5_000_000_000;
}

-- The queue is the buffers that wait in its channel.
pub record CompressorPool : Type 0 where
  pub num_compressors : ℕ
  pub buf_pool : BufPool
  pub metrics_queue : List ℕ
  pub queue_size : ℕ
  pub compression_level : ℤ
  pub batch_target_size : ℤ
  pub flush_interval : ℤ
  pub state : PoolState

pub data Creation : Type 0 where
  bad_level : Creation
  bad_target_size : (e : ℕ) → Creation
  bad_queue_size : Creation
  opened : CompressorPool → Creation

-- gzip.NewWriterLevel takes the levels from gzip.HuffmanOnly to gzip.BestCompression.
pub is_bad_level : ℤ → Bool
is_bad_level level = ltb_ℤ level (negsuc 1) || ltb_ℤ (pos 9) level

pool_of : PoolConfig → (available : ℕ) → (batch_target_size : ℤ) → CompressorPool
pool_of cfg available batch_target_size = record {
  num_compressors = num_compressors cfg.num_compressors available;
  buf_pool = new_read_file_buf_pool cfg.buffer_pool_max_size (pos 0);
  metrics_queue = [];
  queue_size = pos_part cfg.metrics_queue_size;
  compression_level = cfg.compression_level;
  batch_target_size = batch_target_size;
  flush_interval = cfg.flush_interval;
  state = created;
}

-- `make` of a channel panics at a negative size.
queue_by : (negative : Bool) → PoolConfig → (available : ℕ) → (batch_target_size : ℤ) → Creation
unfolding pool_of
queue_by true cfg available batch_target_size = bad_queue_size
queue_by false cfg available batch_target_size = opened (pool_of cfg available batch_target_size)

size_by : PoolConfig → (available : ℕ) → ℕ ⊎ ℤ → Creation
unfolding queue_by
size_by cfg available (inl e) = bad_target_size e
size_by cfg available (inr n) = queue_by (ltb_ℤ cfg.metrics_queue_size (pos 0)) cfg available n

level_by : (bad : Bool) → PoolConfig → (available : ℕ) → ℕ ⊎ ℤ → Creation
unfolding size_by
level_by true cfg available size = bad_level
level_by false cfg available size = size_by cfg available size

abbrev pub config_or_default : Option PoolConfig → PoolConfig
config_or_default none = default_compressor_pool_config
config_or_default (some cfg) = cfg

pub new_compressor_pool :
    (ram_in_bytes : String → ℕ ⊎ ℤ) → (available : ℕ) → Option PoolConfig → Creation
unfolding level_by
new_compressor_pool ram_in_bytes available pool_cfg =
    let cfg = config_or_default pool_cfg in
    level_by (is_bad_level cfg.compression_level) cfg available (ram_in_bytes cfg.batch_target_size)

pub get_pool_buf : CompressorPool → ℕ × CompressorPool
get_pool_buf p = let got = get_buf p.buf_pool in (got.0, record p { buf_pool = got.1 })

pub return_pool_buf : Option ℕ → CompressorPool → CompressorPool
return_pool_buf buf p = record p { buf_pool = return_buf buf p.buf_pool }

-- The send, none while the channel is full.
pub queue_pool_buf : (b : ℕ) → CompressorPool → Option CompressorPool
queue_pool_buf b p =
    if ltb (length p.metrics_queue) p.queue_size
    then some (record p { metrics_queue = p.metrics_queue ++ b ∷ [] })
    else none

pub get_target_size : CompressorPool → ℤ
get_target_size p = p.batch_target_size

-- Each outcome with its cause.
pub data IsOpened (ram_in_bytes : String → ℕ ⊎ ℤ) (available : ℕ) (cfg : PoolConfig)
    : Creation → Type 0 where
  level_fails :
      is_bad_level cfg.compression_level ≡ true → IsOpened ram_in_bytes available cfg bad_level
  size_fails :
      (e : ℕ)
      → ram_in_bytes cfg.batch_target_size ≡ inl e
      → IsOpened ram_in_bytes available cfg (bad_target_size e)
  queue_fails :
      ltb_ℤ cfg.metrics_queue_size (pos 0) ≡ true
      → IsOpened ram_in_bytes available cfg bad_queue_size
  opens :
      (p : CompressorPool)
      → is_bad_level cfg.compression_level ≡ false
      → ram_in_bytes cfg.batch_target_size ≡ inr p.batch_target_size
      → IsSound p.buf_pool []
      → (0 < available → 0 < p.num_compressors)
      → p.num_compressors ≤ max_num_compressors
      → IsOpened ram_in_bytes available cfg (opened p)

num_compressors-bounds :
    (configured : ℤ) (available : ℕ)
    → (0 < available → 0 < num_compressors configured available)
      × (num_compressors configured available ≤ max_num_compressors)
unfolding num_compressors
num_compressors-bounds configured available = (λ h. ground (arith, h), ground arith)

queue_by-IsOpened :
    (ram_in_bytes : String → ℕ ⊎ ℤ) (available : ℕ) (cfg : PoolConfig) (negative : Bool) (n : ℤ)
    → ltb_ℤ cfg.metrics_queue_size (pos 0) ≡ negative
    → is_bad_level cfg.compression_level ≡ false
    → ram_in_bytes cfg.batch_target_size ≡ inr n
    → IsOpened ram_in_bytes available cfg (queue_by negative cfg available n)
unfolding queue_by pool_of new_read_file_buf_pool
queue_by-IsOpened ram_in_bytes available cfg true n q l s = queue_fails q
queue_by-IsOpened ram_in_bytes available cfg false n q l s =
    let b = num_compressors-bounds cfg.num_compressors available in
    opens (pool_of cfg available n) l s
      (record { fits = omega arith; once = tt; made = tt; capped = λ h. omega arith }) b.0 b.1

size_by-IsOpened :
    (ram_in_bytes : String → ℕ ⊎ ℤ) (available : ℕ) (cfg : PoolConfig) (size : ℕ ⊎ ℤ)
    → ram_in_bytes cfg.batch_target_size ≡ size
    → is_bad_level cfg.compression_level ≡ false
    → IsOpened ram_in_bytes available cfg (size_by cfg available size)
unfolding size_by
size_by-IsOpened ram_in_bytes available cfg (inl e) s l = size_fails e s
size_by-IsOpened ram_in_bytes available cfg (inr n) s l =
    queue_by-IsOpened ram_in_bytes available cfg _ n refl l s

level_by-IsOpened :
    (ram_in_bytes : String → ℕ ⊎ ℤ) (available : ℕ) (cfg : PoolConfig) (bad : Bool)
    → is_bad_level cfg.compression_level ≡ bad
    → IsOpened ram_in_bytes available cfg
        (level_by bad cfg available (ram_in_bytes cfg.batch_target_size))
unfolding level_by
level_by-IsOpened ram_in_bytes available cfg true l = level_fails l
level_by-IsOpened ram_in_bytes available cfg false l =
    size_by-IsOpened ram_in_bytes available cfg _ refl l

-- NewCompressorPool fails only at a level that gzip does not take, a target size that is no size, or a
-- queue of negative size; otherwise its pool has the configured target size, a sound pool of buffers,
-- and as many compressors as the limit allows at most, one at least if there is a CPU.
pub new_compressor_pool-IsOpened :
    (ram_in_bytes : String → ℕ ⊎ ℤ) (available : ℕ) (pool_cfg : Option PoolConfig)
    → IsOpened ram_in_bytes available
        (config_or_default pool_cfg)
        (new_compressor_pool ram_in_bytes available pool_cfg)
unfolding new_compressor_pool
new_compressor_pool-IsOpened ram_in_bytes available pool_cfg =
    level_by-IsOpened ram_in_bytes available (config_or_default pool_cfg) _ refl
