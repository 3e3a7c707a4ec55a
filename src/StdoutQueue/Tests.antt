-- ===== src/StdoutQueue/Tests.antt =====
-- A run of a queue with one buffer, and its shutdown.
use Prim.Native.String.{String}
use victoriametrics_importer.Prelude.{
  suc, ◌≡◌, refl, true, Option, none, some, List, [], ◌∷◌, ◌++◌, length, replicate,
}
use victoriametrics_importer.Prelude.Int.{ℤ, pos}
use victoriametrics_importer.BufferPool.{new_read_file_buf_pool, get_buf, get_buf_by}
use victoriametrics_importer.StdoutQueue.{
  default_config, config_or_default, Queue, new_queue, new_stdout_metrics_queue, header, Event, get,
  fill, queue_buf, round, shutdown, send_to, step, run,
}
use victoriametrics_importer.StdoutQueue.Invariant.{Inv, full}
use victoriametrics_importer.StdoutQueue.Shows.{texts, run-shows, Drained, shutdown-Drained}

abbrev ram_in_bytes : String → Option ℤ
ram_in_bytes size = some (pos 65536)

opened : (q : Queue) × (new_stdout_metrics_queue ram_in_bytes none ≡ some q)
unfolding new_stdout_metrics_queue
opened = (_, refl)

abbrev one_buffer : List Event
one_buffer = get ∷ fill 0 (65 ∷ 66 ∷ []) ∷ queue_buf 0 ∷ []

queued : (r : Queue) × (run one_buffer opened.0 ≡ some r)
unfolding run step send_to opened new_queue config_or_default default_config get_buf get_buf_by
    new_read_file_buf_pool
queued = (_, refl)

run-shows_example : Inv queued.0 × (full queued.0 ≡ header ++ texts one_buffer opened.0)
run-shows_example = run-shows ram_in_bytes none one_buffer opened.0 queued.0 opened.1 queued.1

queued_is_open : queued.0.is_open ≡ true
unfolding queued
queued_is_open = refl

shutdown-Drained_example :
    Drained queued.0 (shutdown ∷ replicate (suc (length queued.0.queue)) round)
shutdown-Drained_example = shutdown-Drained queued.0 run-shows_example.0 queued_is_open
