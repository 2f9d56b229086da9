-- ===== src/Storage/Journal.antt =====
-- validateRecord and validateSuccessor of ImageFileTransactionJournal.cpp, which throw where the tests
-- below answer false.
pub mod Graph
pub mod Chain
use jpg_spinner.Prelude.{
  ℕ, ◌+◌, ◌-◌, ◌%◌, ◌^◌, Bool, true, false, not, ◌&&◌, ◌||◌, List, [], ◌∷◌, none, some, length, ltb,
  leb, ◌==◌, if◌then◌else◌, is_same_list, is_same_flag,
}
use jpg_spinner.Storage.Records.{
  Text, ImageFileTransactionState, staged_output_hash_verified, verified_backup_created,
  transaction_abandoned_before_commit, state_index, OutputDisposition, retains_backup,
  ImageFileTransactionJournalRecord, CryptographicBuffer, create_corrected_copy,
  replace_original_with_verified_backup, replace_original_without_retained_backup,
}

abbrev pub maximum_generation : ℕ
maximum_generation = 6

abbrev pub is_empty : Text → Bool
is_empty [] = true
is_empty (c ∷ cs) = false

abbrev has_null : Text → Bool
has_null [] = false
has_null (c ∷ cs) = c == 0 || has_null cs

-- A path of the record, empty or not.
abbrev is_bounded_path : Text → Bool
is_bounded_path p = not (leb 32768 (length p) || has_null p)

unfoldable pub validate_identity : CryptographicBuffer → Text → Bool
validate_identity buffer identity =
    if not (length identity == 48) then false else elim (buffer.decode_from_hex_string identity) [
      | none ↦ false
      | some bytes ↦ length bytes == 24 && is_same_list (buffer.encode_to_hex_string bytes) identity
    ]

-- The generation and the backup that go with a state.
unfoldable pub validate_milestone : ImageFileTransactionState → ℕ → Bool → Bool → Bool
validate_milestone transaction_abandoned_before_commit generation has_backup retains = not (
    ltb generation 2
    || ltb (if retains then 5 else 4) generation
    || not (is_same_flag has_backup (retains && generation == 5)))
validate_milestone state generation has_backup retains =
    let late = leb (state_index verified_backup_created) (state_index state) in
    if (not retains && (has_backup || state_index state == state_index verified_backup_created))
      || (retains && not (is_same_flag has_backup late))
    then false
    else generation
      == state_index state + 1 - (if not retains && leb 4 (state_index state) then 1 else 0)

unfoldable pub validate_record : CryptographicBuffer → ImageFileTransactionJournalRecord → Bool
validate_record buffer r =
    let has_backup = not (is_empty r.backup_identity) in
    if r.transaction_identifier == 0
      || r.generation == 0
      || ltb maximum_generation r.generation
      || r.source_revision.encoded_length_bytes == 0
      || r.output_length_bytes == 0
    then false
    else if not (
        is_path r.selected_root_path
        && is_path r.source_path
        && is_path r.stage_path
        && is_path r.destination_path)
    then false
    else if not (
        validate_identity buffer r.selected_root_identity
        && validate_identity buffer r.source_identity
        && validate_identity buffer r.stage_identity)
    then false
    else if not
        (is_same_flag has_backup (not (is_empty r.backup_path)) && is_bounded_path r.backup_path)
    then false
    else if has_backup && not (validate_identity buffer r.backup_identity)
    then false
    else validate_milestone r.state r.generation has_backup (retains_backup r.output_disposition)
  where
    is_path : Text → Bool
    is_path p = not (is_empty p) && is_bounded_path p

-- The state may follow the prior one.
unfoldable pub is_adjacent :
    OutputDisposition → ImageFileTransactionState → ImageFileTransactionState → Bool
is_adjacent disposition prior transaction_abandoned_before_commit = not (leb 4 (state_index prior))
is_adjacent disposition prior next =
    let expected =
      state_index prior
      + 1
      + (if not (retains_backup disposition)
            && state_index prior == state_index staged_output_hash_verified
          then 1
          else 0) in
    not (ltb 5 expected) && state_index next == expected

unfoldable pub is_same_disposition : OutputDisposition → OutputDisposition → Bool
is_same_disposition create_corrected_copy create_corrected_copy = true
is_same_disposition replace_original_with_verified_backup replace_original_with_verified_backup =
    true
is_same_disposition replace_original_without_retained_backup
      replace_original_without_retained_backup =
    true
is_same_disposition _ _ = false

-- The comparison of the records, member by member.
unfoldable pub is_same_record :
    ImageFileTransactionJournalRecord → ImageFileTransactionJournalRecord → Bool
is_same_record a b =
    a.transaction_identifier == b.transaction_identifier
    && a.generation == b.generation
    && state_index a.state == state_index b.state
    && is_same_disposition a.output_disposition b.output_disposition
    && is_same_list a.selected_root_path b.selected_root_path
    && is_same_list a.selected_root_identity b.selected_root_identity
    && is_same_list a.source_path b.source_path
    && is_same_list a.source_identity b.source_identity
    && a.source_revision.encoded_length_bytes == b.source_revision.encoded_length_bytes
    && a.source_revision.last_write_time_utc == b.source_revision.last_write_time_utc
    && is_same_list a.source_revision.encoded_sha256 b.source_revision.encoded_sha256
    && is_same_list a.stage_path b.stage_path
    && is_same_list a.stage_identity b.stage_identity
    && a.output_length_bytes == b.output_length_bytes
    && is_same_list a.output_sha256 b.output_sha256
    && is_same_list a.backup_path b.backup_path
    && is_same_list a.backup_identity b.backup_identity
    && is_same_list a.destination_path b.destination_path

-- The prior record with what the transition may change.
unfoldable pub expected_record :
    ImageFileTransactionJournalRecord
    → ImageFileTransactionJournalRecord
    → ImageFileTransactionJournalRecord
expected_record prior next =
    let moved = record prior { generation = next.generation; state = next.state } in
    if state_index next.state == state_index verified_backup_created
    then record moved { backup_path = next.backup_path; backup_identity = next.backup_identity }
    else moved

unfoldable pub validate_successor :
    CryptographicBuffer
    → ImageFileTransactionJournalRecord
    → ImageFileTransactionJournalRecord
    → Bool
validate_successor buffer prior next =
    if not (validate_record buffer next)
    then false
    else if not (next.generation == (prior.generation + 1) % 2 ^ 32)
    then false
    else if not (is_adjacent prior.output_disposition prior.state next.state)
    then false
    else is_same_record (expected_record prior next) next
