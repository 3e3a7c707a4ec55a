-- ===== src/Compressor.antt =====
-- vmi/internal/compressor_pool.go: the pool's states, and the loop of one compressor, which gathers
-- buffers in a batch, and sends the batch when it is large enough, when the flush timer fires, or
-- when the queue is closed. `loop` is one turn of the Go loop for what its select receives.
-- The compression factor is a float64 there: here a type of its own, with the two computations that
-- use it, is a parameter, as is what gzip makes of the writes of a batch.
mod Batches
mod Delivery
mod States
mod Create
mod Tests
use victoriametrics_importer.Prelude.{
  ℕ, zero, suc, ◌+◌, ◌-◌, ◌^◌, ◌%◌, ◌<◌, Bool, true, false, not, ◌&&◌, ◌||◌, Option, none, some,
  List, [], ◌∷◌, ◌++◌, ltb, leb, ◌==◌, if◌then◌else◌, length, min,
}
use victoriametrics_importer.Prelude.Int.{ℤ, pos_part}

abbrev pub Bytes : Type 0
Bytes = List ℕ

abbrev pub add64 : ℕ → ℕ → ℕ
add64 a b = (a + b) % 2 ^ 64

-- COMPRESSED_BATCH_MIN_SIZE_FOR_CF and COMPRESSOR_POOL_MAX_NUM_COMPRESSORS
abbrev pub min_size_for_cf : ℕ
min_size_for_cf = 128

abbrev pub max_num_compressors : ℕ
max_num_compressors = 4

-- The configured number, or one for each CPU, up to the limit.
pub num_compressors : (configured : ℤ) → (available : ℕ) → ℕ
num_compressors configured available =
    let n = if ltb 0 (pos_part configured) then pos_part configured else available in
    if ltb max_num_compressors n then max_num_compressors else n

pub data PoolState : Type 0 where
  created running stopped : PoolState

-- The state after Start, and whether it starts the compressors.
pub start : PoolState → PoolState × Bool
start created = (running, true)
start running = (running, false)
start stopped = (stopped, false)

-- The state after Shutdown, and whether it closes the queue.
pub shutdown : PoolState → PoolState × Bool
shutdown created = (stopped, true)
shutdown running = (stopped, true)
shutdown stopped = (stopped, false)

pub record CompressorStats : Type 0 where
  pub read_count : ℕ
  pub read_byte_count : ℕ
  pub send_count : ℕ
  pub send_byte_count : ℕ
  pub timeout_flush_count : ℕ
  pub send_error_count : ℕ
  pub write_error_count : ℕ

pub new_compressor_stats : CompressorStats
new_compressor_stats = record {
  read_count = 0;
  read_byte_count = 0;
  send_count = 0;
  send_byte_count = 0;
  timeout_flush_count = 0;
  send_error_count = 0;
  write_error_count = 0;
}

-- What the select receives: from the queue a buffer, which is none for nil, and whether the writer
-- takes its bytes; that the queue is closed; or the flush timer. With it, whether a batch that is
-- sent in this turn is accepted.
pub data Received : Type 0 where
  buffer : (buf : Option Bytes) → (writes accepted : Bool) → Received
  closed timeout : (accepted : Bool) → Received

module _ (Factor : Type 0) where
  pub record Codec : Type 0 where
    pub gzip : List Bytes → Bytes
    pub next_factor : (read sent : ℕ) → Factor → Factor
    pub read_byte_limit : Factor → ℕ

  -- `gz_writer` is whether there is a writer, `gz_buf` the writes since it was last reset,
  -- `returned` the buffers given back to the pool of buffers, `sent` the batches given to the
  -- sender, in their order.
  pub record Loop : Type 0 where
    pub gz_writer : Bool
    pub gz_buf : List Bytes
    pub batch_read_count : ℕ
    pub batch_read_byte_count : ℕ
    pub batch_timeout_count : ℕ
    pub timer_set : Bool
    pub estimated_cf : Factor
    pub is_open : Bool
    pub returned : ℕ
    pub sent : List (List Bytes)
    pub stats : CompressorStats
    pub has_sender : Bool
    pub flush_interval : ℕ

  pub data Turn : Type 0 where
    turned : Loop → Turn
    panics : Turn

  pub start_loop : (has_sender : Bool) → (flush_interval : ℕ) → Factor → Loop
  start_loop has_sender flush_interval cf = record {
    gz_writer = false;
    gz_buf = [];
    batch_read_count = 0;
    batch_read_byte_count = 0;
    batch_timeout_count = 0;
    timer_set = false;
    estimated_cf = cf;
    is_open = true;
    returned = 0;
    sent = [];
    stats = new_compressor_stats;
    has_sender = has_sender;
    flush_interval = flush_interval;
  }

  -- The first read of a batch: a new writer or the old one, reset, and the flush timer.
  pub begin : (first : Bool) → Loop → Loop
  begin true l = record l {
    gz_writer = true;
    gz_buf = [];
    timer_set = if ltb 0 l.flush_interval then true else l.timer_set;
  }
  begin false l = l

  abbrev pub reset : Loop → Loop
  reset l = record l {
    batch_read_count = 0;
    batch_read_byte_count = 0;
    batch_timeout_count = 0;
    timer_set = false;
  }

  abbrev pub count_write_error : CompressorStats → CompressorStats
  count_write_error st = record st { write_error_count = add64 st.write_error_count 1 }

  -- The write; an error drops the batch and the writer.
  pub write : (writes : Bool) → Bytes → Loop → Loop
  write true buf l = record l {
    batch_read_count = l.batch_read_count + 1;
    batch_read_byte_count = l.batch_read_byte_count + length buf;
    gz_buf = l.gz_buf ++ buf ∷ [];
    returned = l.returned + 1;
  }
  write false buf l = record (reset l) {
    gz_writer = false;
    returned = l.returned + 1;
    stats = count_write_error l.stats;
  }

  -- `if buf != nil && buf.Len() > 0`
  pub gather : Option Bytes → (writes : Bool) → Loop → Loop
  gather none writes l = l
  gather (some []) writes l = l
  gather (some (x ∷ xs)) writes l = write writes (x ∷ xs) (begin (l.batch_read_count == 0) l)

  module _ (codec : Codec) where
    pub count_sent : (sent_bytes : ℕ) → (accepted : Bool) → Loop → CompressorStats
    count_sent sent_bytes accepted l =
        let st = l.stats in
        record {
          read_count = add64 st.read_count l.batch_read_count;
          read_byte_count = add64 st.read_byte_count l.batch_read_byte_count;
          send_count = add64 st.send_count (if l.has_sender then 1 else 0);
          send_byte_count =
              add64 st.send_byte_count (if l.has_sender && accepted then sent_bytes else 0);
          timeout_flush_count = add64 st.timeout_flush_count l.batch_timeout_count;
          send_error_count =
              add64 st.send_error_count (if l.has_sender && not accepted then 1 else 0);
          write_error_count = st.write_error_count;
        }

    -- The end of a batch: the factor, the sending and the statistics.
    pub send_batch : (accepted : Bool) → Loop → Loop
    send_batch accepted l =
        let sent_bytes = length (codec.gzip l.gz_buf) in
        reset (record l {
          estimated_cf =
              if leb min_size_for_cf sent_bytes
              then codec.next_factor l.batch_read_byte_count sent_bytes l.estimated_cf
              else l.estimated_cf;
          sent = if l.has_sender then l.sent ++ l.gz_buf ∷ [] else l.sent;
          stats = count_sent sent_bytes accepted l;
        })

    -- `gzWriter.Close()` panics without a writer.
    pub send_by : (do_send : Bool) → (gz_writer : Bool) → (accepted : Bool) → Loop → Turn
    send_by false gz_writer accepted l = turned l
    send_by true true accepted l = turned (send_batch accepted l)
    send_by true false accepted l = panics

    pub do_send : Loop → Bool
    do_send l =
        not l.is_open && ltb 0 l.batch_read_byte_count
        || leb (codec.read_byte_limit l.estimated_cf) l.batch_read_byte_count

    pub loop : Received → Loop → Turn
    loop (buffer buf writes accepted) l =
        let m = gather buf writes l in send_by (do_send m) m.gz_writer accepted m
    loop (closed accepted) l =
        let m = record l { is_open = false } in send_by (do_send m) m.gz_writer accepted m
    loop (timeout accepted) l =
        send_by true l.gz_writer accepted (record l { batch_timeout_count = 1; timer_set = false })

    -- What the select can receive: the queue's while it is open, the timer's while it is set.
    abbrev pub enabled : Received → Loop → Bool
    enabled (buffer buf writes accepted) l = l.is_open
    enabled (closed accepted) l = l.is_open
    enabled (timeout accepted) l = l.is_open && l.timer_set

    abbrev pub turn : Received → Loop → Turn
    turn r l = if enabled r l then loop r l else turned l

    -- A run of the loop; what the select cannot receive passes it by.
    pub run : List Received → Loop → Turn
    run [] l = turned l
    run (r ∷ rs) l = elim (turn r l) [ turned m ↦ run rs m | panics ↦ panics ]
