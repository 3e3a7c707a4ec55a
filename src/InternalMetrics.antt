-- ===== src/InternalMetrics.antt =====
-- The internal metrics of vmi/internal/internal_metrics.go and the *_internal_metrics.go files beside
-- it: what the importer publishes about itself. The text of a metric is its caption, `name{labels} `,
-- which the code makes once by fmt.Sprintf and keeps, a value, and the timestamp's suffix. Captions
-- and the text of floating point values are parameters; integers are written out.
pub mod Table
pub mod Text
pub mod Sources
pub mod Task
mod Tests
