-- ===== src/StdoutQueue.antt =====
-- vmi/internal/stdout_metrics_queue.go: the queue whose metrics are displayed at stdout. Its users are
-- the generators, which fill buffers of its pool; `held` is the buffers that are not in the pool. Each
-- event is one call of a user, one round of the loop, or the `close` of Shutdown. The channel has room
-- for at least one buffer.
pub mod Invariant
mod Displayed
pub mod Keeps
pub mod Shows
mod Tests
use Prim.Native.String.{String}
use victoriametrics_importer.Prelude.{
  ℕ, zero, suc, ◌+◌, ◌-◌, ◌<◌, Bool, true, false, not, ◌&&◌, Option, none, some, List, [], ◌∷◌,
  ◌++◌, ltb, if◌then◌else◌, length,
}
use victoriametrics_importer.Prelude.Int.{ℤ, pos}
use victoriametrics_importer.Prelude.Sets.{has, erase}
use victoriametrics_importer.BufferPool.{
  Bytes, BufPool, new_read_file_buf_pool, write_to, get_buf, return_buf,
}

-- The entries of CompressorPoolConfig that the queue reads.
pub record QueueConfig : Type 0 where
  pub buffer_pool_max_size : ℤ
  pub metrics_queue_size : ℕ
  pub batch_target_size : String

pub default_config : QueueConfig
default_config = record {
  buffer_pool_max_size = pos 64;
  metrics_queue_size = 64;
  batch_target_size = "64k";
}

pub record Queue : Type 0 where
  pub buf_pool : BufPool
  pub queue : List ℕ
  pub queue_size : ℕ
  pub is_open : Bool
  pub batch_target_size : ℤ
  pub first_use : Bool
  pub looping : Bool
  pub written : Bytes
  pub held : List ℕ

new_queue : QueueConfig → (batch_target_size : ℤ) → Queue
new_queue cfg batch_target_size = record {
  buf_pool = new_read_file_buf_pool cfg.buffer_pool_max_size (pos 0);
  queue = [];
  queue_size = cfg.metrics_queue_size;
  is_open = true;
  batch_target_size = batch_target_size;
  first_use = true;
  looping = true;
  written = [];
  held = [];
}

config_or_default : Option QueueConfig → QueueConfig
config_or_default none = default_config
config_or_default (some cfg) = cfg

-- None is an error; `units.RAMInBytes` is the argument.
pub new_stdout_metrics_queue :
    (ram_in_bytes : String → Option ℤ) → Option QueueConfig → Option Queue
unfolding new_queue config_or_default
new_stdout_metrics_queue ram_in_bytes pool_cfg =
    let cfg = config_or_default pool_cfg in
    elim (ram_in_bytes cfg.batch_target_size) [ none ↦ none | some n ↦ some (new_queue cfg n) ]

-- "\n# Metrics will be displayed to stdout\n\n"
abbrev pub header : Bytes
header =
    10 ∷ 35 ∷ 32 ∷ 77 ∷ 101 ∷ 116 ∷ 114 ∷ 105 ∷ 99 ∷ 115 ∷ 32 ∷ 119 ∷ 105 ∷ 108 ∷ 108 ∷ 32 ∷ 98
    ∷ 101 ∷ 32 ∷ 100 ∷ 105 ∷ 115 ∷ 112 ∷ 108 ∷ 97 ∷ 121 ∷ 101 ∷ 100 ∷ 32 ∷ 116 ∷ 111 ∷ 32 ∷ 115
    ∷ 116 ∷ 100 ∷ 111 ∷ 117 ∷ 116 ∷ 10 ∷ 10 ∷ []

-- What a buffer adds to stdout.
abbrev pub shown : Bytes → Bytes
shown [] = []
shown (b ∷ bs) = (b ∷ bs) ++ 10 ∷ []

write_header : (first_use : Bool) → Queue → Queue
write_header true q = record q { written = q.written ++ header; first_use = false }
write_header false q = q

write_buf : ℕ → Queue → Queue
write_buf b q = record q {
  written = q.written ++ shown (q.buf_pool.contents b);
  buf_pool = return_buf (some b) q.buf_pool;
  held = erase b q.held;
}

-- One round of the loop, with a buffer of the queue.
pub display : (first_use : Bool) → ℕ → Queue → Queue
unfolding write_header write_buf
display first_use b q = write_buf b (write_header first_use q)

pub data Event : Type 0 where
  get : Event
  fill : (b : ℕ) → Bytes → Event
  give_back queue_buf : (b : ℕ) → Event
  round : Event
  shutdown : Event

pub data Outcome : Type 0 where
  next : Queue → Outcome
  not_enabled : Outcome
  panics : Outcome

-- Whether a user has the buffer: it is neither in the pool nor in the queue.
abbrev pub is_with_user : ℕ → Queue → Bool
is_with_user b q = has b q.held && not (has b q.queue)

pub send_to : (is_open : Bool) → ℕ → Queue → Outcome
send_to false b q = panics
send_to true b q =
    if ltb (length q.queue) q.queue_size
    then next (record q { queue = q.queue ++ b ∷ [] })
    else not_enabled

pub receive_from : (looping : Bool) → (is_open : Bool) → List ℕ → Queue → Outcome
receive_from false is_open bs q = not_enabled
receive_from true is_open (b ∷ bs) q = next (display q.first_use b (record q { queue = bs }))
receive_from true true [] q = not_enabled
receive_from true false [] q = next (record q { looping = false })

pub close_by : (is_open : Bool) → Queue → Outcome
close_by true q = next (record q { is_open = false })
close_by false q = panics

pub step : Event → Queue → Outcome
step get q =
    let got = get_buf q.buf_pool in next (record q { buf_pool = got.1; held = got.0 ∷ q.held })
step (fill b bytes) q =
    if is_with_user b q
    then next (record q {
      buf_pool = record q.buf_pool {
        contents = write_to b (q.buf_pool.contents b ++ bytes) q.buf_pool.contents;
      };
    })
    else not_enabled
step (give_back b) q =
    if is_with_user b q
    then next (record q { buf_pool = return_buf (some b) q.buf_pool; held = erase b q.held })
    else not_enabled
step (queue_buf b) q = if is_with_user b q then send_to q.is_open b q else not_enabled
step round q = receive_from q.looping q.is_open q.queue q
step shutdown q = close_by q.is_open q

-- A run of events, none if one is not enabled or panics.
abbrev pub follow : (Queue → Option Queue) → Outcome → Option Queue
follow rest (next q) = rest q
follow rest not_enabled = none
follow rest panics = none

pub run : List Event → Queue → Option Queue
run [] q = some q
run (e ∷ es) q = follow (run es) (step e q)
