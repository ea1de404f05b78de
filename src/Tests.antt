-- ===== src/Tests.antt =====
-- Small inputs, and the theorems at them.
mod Samples
mod EnvelopeTests
mod LedgerTests
mod ArchiveTests
mod IngressTests
mod UserTests
mod PipelineTests
mod ChatTests
mod WorkerTests
mod ReplyTests
mod JobTests
mod StoreTests
mod ToolTests
mod SchedulerTests
