-- ===== src/Storage.antt =====
-- JpgSpinner.WindowsStorage: the journal of a file transaction.
pub mod Records
pub mod Journal
