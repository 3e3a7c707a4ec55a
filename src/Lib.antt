-- ===== src/Lib.antt =====
-- Verification library of the VictoriaMetrics importer, a framework that runs metrics generators at
-- regular intervals and sends what they write, compressed and in batches, to import endpoints.
--
-- A scheduler (vmi/internal/scheduler.go) keeps tasks in a heap by their next time; its dispatcher
-- hands the due ones to workers through bounded channels. A task's generator takes a buffer of the
-- pool of buffers (vmi/internal/readfile_buf_pool.go), writes metrics to it and queues it for the
-- compressors (vmi/internal/compressor_pool.go), which gather buffers into gzip batches and give
-- them to SendBuffer of the pool of endpoints (vmi/internal/http_endpoint_pool.go). That rotates
-- among the healthy endpoints, retries elsewhere and checks failed ones until they answer. The body
-- of a request may be limited in its rate by a credit (vmi/internal/rate_controller.go). One more
-- generator publishes the statistics of all these parts (vmi/internal/internal_metrics.go).
--
-- Files, each with the code that it is about:
--   EndpointList    HttpEndpoint and its doubly linked list: Insert, Remove, AddToHead, AddToTail
--   Pool            HttpEndpointPool: ReportError, MoveToHealthy, the selection of
--                   GetCurrentHealthy, HealthCheck and Shutdown as functions on the pool's record
--   Pool/Startup    the endpoints of NewHttpEndpointPool, NewHttpEndpoint, OverrideEndpoints
--   Pool/Create     the rest of NewHttpEndpointPool, with its configuration and its errors
--   Pool/Auth       LoadPasswordSpec and BuildHtmlBasicAuth, with base64
--   Pool/Send       the wait loop of GetCurrentHealthy and the attempts of SendBuffer
--   Credit          Credit: NewCredit, startReplenish, GetCredit; Credit/Reader: CreditReader
--   Credit/Spec     ParseCreditRateSpec and NewCreditFromSpec
--   BytesBody       BytesReadSeekCloser, the body of a request
--   Scheduler       CompliantTaskInterval and the choice of the next time in dispatcherLoop
--   Scheduler/System  dispatcherLoop and workerLoop as a step relation over their channels
--   Scheduler/System/Conserve, Counted, Enabled, Progress  where the tasks are, and what can go on
--   Scheduler/Heap  Less, Swap, Push and Pop of the scheduler under container/heap
--   Scheduler/Lifecycle  Start and Shutdown of the scheduler
--   BufferPool      ReadFileBufPool: GetBuf, ReturnBuf, ReadFile
--   Compressor      the loop of a compressor, Start and Shutdown; Compressor/Create:
--                   NewCompressorPool and the operations on its buffers
--   Counter         the counter generator of reference/refvmi/counter_metrics.go with its parser,
--                   GenBaseMetricsStart and GetInitialCycleNum
--   Gauge           the parsers of reference/parser/random_gauge.go and random_categorical.go
--   GaugeMetrics    the gauge generator of reference/refvmi/gauge_metrics.go
--   CategoricalMetrics  the categorical generator of reference/refvmi/categorical_metrics.go
--   InternalMetrics  vmi/internal/internal_metrics.go and the *_internal_metrics.go files: Table is
--                   the statistics by id and their dual storage, Text the writing to buffers, Sources
--                   SnapStats and generateMetrics of each source, Task the generator's TaskAction
--   Runner          Run of vmi/internal/runner.go and InternalMetricsTaskBuilder
--   Config          LoadConfig of vmi/internal/config.go
--   StdoutQueue     StdoutMetricsQueue of vmi/internal/stdout_metrics_queue.go
--   Simulator       the emulated import endpoint of vmi-extras/vmi-endpoint/main.go: handleFunc,
--                   with Decode its decoding; Counted describes which
--                   requests it counts; Rate is logTrafficRate, Settings the flags of main
--   AvailableCpus   GetAvailableCPUCount of vmi/internal/available_cpus_linux.go
--   OsRelease       vmi/internal/os_release_linux.go
--   FlagUsage       FormatFlagUsageWidth of vmi/internal/cmdline_utils.go
--   Prelude         names of the libraries, lists and integers over native numbers, sets of addresses
--
-- State is a record per Go struct, and an operation is a function from state to state with the
-- source's guards. A pointer is an address in a store. What runs under a lock is one step; other
-- goroutines act between steps, as lists of operations or as events. Statistics are uint64 with
-- their wrap-around, the counter's values uint32, the gauge's int32; int and time.Duration are
-- integers that are taken not to overflow, times natural numbers of nanoseconds.
--
-- Fuel: the wait loop and the loop of attempts run on fuel; running out is a result of its own, and
-- the theorems on their ends give an amount that is enough: a look for each poll interval up to the
-- deadline, and one attempt more than the errors that the healthy endpoints can still take. The
-- search for a time in the future takes as much as the time it has to catch up, and a wait for
-- credit goes through the list of events that follow. The digits of a number, and the search for the
-- number of bytes of the internal metrics, take one more than the number that they start from. The
-- loops of the heap take as many rounds as there are tasks, the count of a mask as many as it has
-- bits, and reading a body one more than it has bytes.
--
-- Parameters: gzip, and the floating point arithmetic of the compression factor, of the rates and of
-- the random offset; the responses, clocks and goroutines that a SendBuffer meets; what
-- the controller of a credit reader grants at each read; how the YAML library decodes a mapping; units.RAMInBytes, time.ParseDuration and
-- strconv.ParseFloat; url.Parse, as whether it takes a text; the random numbers of the parsers and of
-- the shuffle; the environment and the files; the captions of the internal metrics and the text of
-- floating point values; what the Go runtime and the host report. The scheduler's system takes the
-- heap as an interface, which Scheduler/Heap fills.
--
-- Not modelled: log lines, the http client's own work, the captions of metrics, the other operating
-- system queries, which are system calls, the watchdog of Run, the server loop of the emulated
-- endpoint, and the helpers of the tests.
pub mod Prelude
pub mod EndpointList
pub mod Pool
pub mod Credit
pub mod Scheduler
pub mod BufferPool
pub mod Compressor
pub mod Counter
pub mod Gauge
pub mod GaugeMetrics
pub mod CategoricalMetrics
pub mod InternalMetrics
pub mod Runner
pub mod Config
pub mod StdoutQueue
pub mod Simulator
pub mod AvailableCpus
pub mod BytesBody
pub mod OsRelease
pub mod FlagUsage
