-- ===== src/Storage/Records.antt =====
-- ImageFileTransactionJournal.h, OutputDisposition.h and SourceFileRevision.h: what one generation of
-- a transaction's journal says.
use jpg_spinner.Prelude.{ℕ, Bool, true, false, List, Option}

-- The code units of a string, or the bytes of a digest.
abbrev pub Text : Type 0
Text = List ℕ

pub data ImageFileTransactionState : Type 0 where
  transaction_initialized staged_output_written staged_output_hash_verified :
      ImageFileTransactionState
  verified_backup_created output_committed owned_staging_artifacts_cleaned :
      ImageFileTransactionState
  transaction_abandoned_before_commit : ImageFileTransactionState

-- The enumerators' underlying values.
abbrev pub state_index : ImageFileTransactionState → ℕ
state_index transaction_initialized = 0
state_index staged_output_written = 1
state_index staged_output_hash_verified = 2
state_index verified_backup_created = 3
state_index output_committed = 4
state_index owned_staging_artifacts_cleaned = 5
state_index transaction_abandoned_before_commit = 6

abbrev pub is_terminal : ImageFileTransactionState → Bool
is_terminal owned_staging_artifacts_cleaned = true
is_terminal transaction_abandoned_before_commit = true
is_terminal _ = false

pub data OutputDisposition : Type 0 where
  create_corrected_copy replace_original_with_verified_backup : OutputDisposition
  replace_original_without_retained_backup : OutputDisposition

abbrev pub retains_backup : OutputDisposition → Bool
retains_backup replace_original_with_verified_backup = true
retains_backup create_corrected_copy = false
retains_backup replace_original_without_retained_backup = false

-- The time stamp is a 64-bit count of ticks, as its bit pattern.
pub record SourceFileRevision : Type 0 where
  pub encoded_length_bytes : ℕ
  pub last_write_time_utc : ℕ
  pub encoded_sha256 : Text

-- The identifier is the 128-bit number of a GUID.
pub record ImageFileTransactionJournalRecord : Type 0 where
  pub transaction_identifier : ℕ
  pub generation : ℕ
  pub state : ImageFileTransactionState
  pub output_disposition : OutputDisposition
  pub selected_root_path : Text
  pub selected_root_identity : Text
  pub source_path : Text
  pub source_identity : Text
  pub source_revision : SourceFileRevision
  pub stage_path : Text
  pub stage_identity : Text
  pub output_length_bytes : ℕ
  pub output_sha256 : Text
  pub backup_path : Text
  pub backup_identity : Text
  pub destination_path : Text

-- The system's conversion between bytes and hexadecimal text; reading a text that is none throws.
pub record CryptographicBuffer : Type 0 where
  pub decode_from_hex_string : Text → Option (List ℕ)
  pub encode_to_hex_string : List ℕ → Text
