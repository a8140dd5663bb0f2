-- ===== src/Processor.antt =====
-- processor.go, processor_copied.go and util.go: the processor's state and its handlers.
pub mod Spans
pub mod State
pub mod Decisions
pub mod Process
pub mod ProcessTraces
pub mod Exclusive
pub mod Callbacks
pub mod Undecided
pub mod Decided
pub mod TraceCache
pub mod Store
pub mod Conflict
pub mod Exports
pub mod Measured
pub mod Outcomes
pub mod Release
pub mod Consume
pub mod Shards
pub mod Early
pub mod Kept
pub mod Grouping
pub mod Flush
pub mod Flushed
pub mod Moved
pub mod Restart
pub mod Promotion
