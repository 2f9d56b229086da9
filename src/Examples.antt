-- ===== src/Examples.antt =====
-- Runs at concrete inputs.
mod Scans
mod Segments
mod Metadata
mod Plans
mod Acceptance
mod Journals
mod Batches
mod Symbols
mod Outputs
