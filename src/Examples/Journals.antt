-- ===== src/Examples/Journals.antt =====
-- The first generations of a journal.
use jpg_spinner.Prelude.{
  ℕ, zero, suc, ◌≡◌, ◌↔◌, refl, true, false, List, [], ◌∷◌, some, is_same_list, arith,
}
use jpg_spinner.Storage.Journal.Chain.{
  Advances, successor, validate_successor-Advances, validate_successor_along, terminal_is_last,
}
use jpg_spinner.Storage.Journal.Graph.{Follows, written, is_adjacent_iff}
use jpg_spinner.Storage.Journal.{
  validate_identity, validate_milestone, validate_record, is_adjacent, is_same_disposition,
  is_same_record, expected_record, validate_successor,
}
use jpg_spinner.Storage.Records.{
  transaction_initialized, staged_output_written, staged_output_hash_verified,
  verified_backup_created, owned_staging_artifacts_cleaned, create_corrected_copy,
  replace_original_with_verified_backup, ImageFileTransactionJournalRecord, CryptographicBuffer,
}

abbrev repeated : ℕ → ℕ → List ℕ
repeated zero c = []
repeated (suc n) c = c ∷ repeated n c

-- A buffer that knows one identity, of 24 bytes of zero.
abbrev zero_buffer : CryptographicBuffer
zero_buffer = record {
  decode_from_hex_string = λ t. some (repeated 24 0);
  encode_to_hex_string = λ b. repeated 48 0x30;
}

abbrev first : ImageFileTransactionJournalRecord
first = record {
  transaction_identifier = 7;
  generation = 1;
  state = transaction_initialized;
  output_disposition = create_corrected_copy;
  selected_root_path = 0x43 ∷ [];
  selected_root_identity = repeated 48 0x30;
  source_path = 0x44 ∷ [];
  source_identity = repeated 48 0x30;
  source_revision = record {
    encoded_length_bytes = 30;
    last_write_time_utc = 0;
    encoded_sha256 = repeated 32 1;
  };
  stage_path = 0x45 ∷ [];
  stage_identity = repeated 48 0x30;
  output_length_bytes = 31;
  output_sha256 = repeated 32 2;
  backup_path = [];
  backup_identity = [];
  destination_path = 0x46 ∷ [];
}

first_accepted : validate_record zero_buffer first ≡ true
unfolding validate_record validate_identity validate_milestone is_same_list
first_accepted = refl

second_accepted :
    validate_successor zero_buffer first (successor first staged_output_written) ≡ true
unfolding validate_successor validate_record validate_identity validate_milestone is_adjacent
    expected_record is_same_record is_same_disposition is_same_list
second_accepted = refl

validate_successor-Advances_example :
    Advances zero_buffer first (successor first staged_output_written)
validate_successor-Advances_example =
    validate_successor-Advances zero_buffer first (successor first staged_output_written)
      second_accepted

validate_successor_along_example :
    validate_successor zero_buffer first (successor first staged_output_written) ≡ true
validate_successor_along_example =
    validate_successor_along zero_buffer first staged_output_written first_accepted written
      (λ e. ground arith)

terminal_is_last_example :
    validate_successor zero_buffer (successor first owned_staging_artifacts_cleaned) first ≡ false
terminal_is_last_example =
    terminal_is_last zero_buffer (successor first owned_staging_artifacts_cleaned) first refl

is_adjacent_iff_example :
    (is_adjacent replace_original_with_verified_backup staged_output_hash_verified
        verified_backup_created
      ≡ true)
    ↔ Follows replace_original_with_verified_backup staged_output_hash_verified
        verified_backup_created
is_adjacent_iff_example =
    is_adjacent_iff replace_original_with_verified_backup staged_output_hash_verified
      verified_backup_created
