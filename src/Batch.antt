-- ===== src/Batch.antt =====
-- JpgSpinner.BatchProcessing: the results of a batch, and BatchProcessingCoordinator::execute as the atomic sections of
-- its workers. A section ends where a mutex is taken or given back, a stop token or `integrityFailure` is read, or
-- foreign code is called. The row of a file under way belongs to its worker, who is the only one to write it.
pub mod Files
pub mod State
pub mod Admission
pub mod Sections
pub mod Runs
pub mod Conclusion
