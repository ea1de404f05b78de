-- ===== src/Pipeline.antt =====
-- The message pipeline (archive/v3/src/mutsumi_sync/pipeline.py), part by part.
pub mod Markdown
pub mod Compaction
pub mod Sanitizing
