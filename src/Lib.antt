-- ===== src/Lib.antt =====
-- Verification of the Atlassian sampling processor, an OpenTelemetry tail-sampling processor.
--
-- Incoming spans are grouped by trace ID (processor_copied.go) and handed to shards. For each
-- group, processTraces in processor.go looks for a cached decision; without one it makes trace data
-- of the new spans (internal/tracedata), merges its metadata with that of the cached spans, asks
-- the decider (decider.go), which tries the policies (policy.go) with their evaluators
-- (internal/evaluators), and exports, drops or caches the spans (internal/cache). A trace that
-- leaves the trace cache with no decision is entered as not sampled by the eviction callbacks. The
-- memory regulator (internal/memory) resizes the primary cache. All these paths are under
-- pkg/processor/atlassiansamplingprocessor.
--
-- The modules:
-- - Base: tests on numbers, lists, integers, texts. Library: the libraries that the code calls, as
-- records of operations with their documented laws (golang-lru, pdata, protobuf and snappy, floats,
-- OTTL); LruList is a concrete cache that keeps the laws.
-- - Priority: internal/priority. Cache: internal/cache, with the interface and its laws in
-- Cache.Interface. Ptraceutil: internal/ptraceutil/iterator.go, from the root of the repository.
-- Tracedata: internal/tracedata. Evaluators: internal/evaluators, one alternative of Evaluator for
-- each implementation. Regulator: internal/memory/regulator.go. Policy: a policy and its grouper,
-- of policy.go. Config: config.go and config_policy.go. Policies: newPolicies of policy.go, the
-- construction of evaluators in decider.go and of the OTTL conditions in
-- internal/evaluators/ottl.go. Decider: MakeDecision and Start of decider.go.
-- - Processor.Spans: processor_copied.go and util.go. Processor.State: the fields of
-- atlassianSamplingProcessor that the handlers use, with a store of trace data behind pointers,
-- since the cached trace data is changed in place and both tiers see its priority.
-- Processor.Decisions: the decision caches, the eviction callbacks and sendSampledTraceData.
-- Processor.Process: cachedDecision and releaseNotSampledTrace. Processor.ProcessTraces:
-- processTraces, cut at its early returns. Processor.TraceCache: the trace cache that
-- newAtlassianSamplingProcessor makes. Processor.Consume: earlyDecisionChecks and ConsumeTraces up
-- to the sending to the shards. Processor.Flush: flushAll, in a run with some order of its
-- goroutines. Processor.Flushed: what it comes to. Processor.Store: asp.traceData, of one tier or
-- two (Cache.AnyCache), and the primary cache as the regulator sees it. The other children of
-- Processor hold proofs.
-- - Processor.Shards: the whole processor with its shards; Start, Shutdown, ConsumeTraces and the
-- rounds of shardListener as functions on it. Processor.Shards.New: newAtlassianSamplingProcessor.
-- Processor.Shards.Steps: what may happen next, as a step relation, and the states that are
-- reached; the channel of a shard is its buffer, with the sends that wait, and a send to a waiting
-- listener is a step of its own, so that an unbuffered channel is covered. The regulator acts only
-- while no listener has a batch in hand, as the global lock makes it. Its other children hold
-- proofs.
-- - Examples: the theorems at concrete inputs.
--
-- Numbers are natural numbers; span counts wrap at 32 bits, hashes at 32 and 64, timestamps at 64.
-- No loop needs fuel: each is a recursion on a list. The callback of a cache is a change of the
-- world, and a cache hands over what leaves it after it has left.
--
-- Not modelled: interleavings inside the handling of one trace, which is one step, and inside the
-- checks of one ConsumeTraces or one goroutine of flushAll (the goroutine of cachedDecision that
-- exports late spans is run at once); what goroutines of flushAll do after the context has ended
-- it; the contexts, whose end is a step that may happen at any time, and the result of
-- ConsumeTraces; logs, histograms of times, and generated code. An export is recorded; the handlers
-- of spans do no more with its error than log it, and for flushAll it is an input. Within one step
-- time.Now() stands still. factory.go only hands the constructor to the collector, and the texts of
-- errors are left out.
pub mod Base
pub mod Library
pub mod Priority
pub mod Cache
pub mod Ptraceutil
pub mod Tracedata
pub mod Evaluators
pub mod Regulator
pub mod Policy
pub mod Config
pub mod Policies
pub mod Decider
pub mod Processor
pub mod Examples
