-- ===== src/Storage/Journal/Chain.antt =====
-- What one accepted generation says of the one before it, and which generations are accepted.
use jpg_spinner.Prelude.{
  ℕ, ◌+◌, ◌%◌, ◌^◌, ◌≤◌, ◌≡◌, ◌≢◌, refl, Bool, true, false, not, arith, ◌==◌, is_same_list_eq,
  is_same_list_refl,
}
use jpg_spinner.Storage.Journal.Graph.{
  Follows, written, verified, backed_up, committed_behind_backup, committed, cleaned, abandoned,
  is_adjacent_iff,
}
use jpg_spinner.Storage.Journal.{
  is_empty, validate_milestone, validate_record, is_adjacent, is_same_disposition, is_same_record,
  expected_record, validate_successor,
}
use jpg_spinner.Storage.Records.{
  ImageFileTransactionState, verified_backup_created, state_index, is_terminal, OutputDisposition,
  retains_backup, ImageFileTransactionJournalRecord, CryptographicBuffer,
}

state_index_eq : (s t : ImageFileTransactionState) → state_index s ≡ state_index t → s ≡ t
state_index_eq s t h = ground arith

is_same_disposition_eq : (c d : OutputDisposition) → is_same_disposition c d ≡ true → c ≡ d
unfolding is_same_disposition
is_same_disposition_eq c d h = ground arith

-- The two records name the same artifacts.
pub record IsSameTransaction (a b : ImageFileTransactionJournalRecord) : Type 0 where
  pub identifier : a.transaction_identifier ≡ b.transaction_identifier
  pub disposition : a.output_disposition ≡ b.output_disposition
  pub root : a.selected_root_path ≡ b.selected_root_path
  pub root_identity : a.selected_root_identity ≡ b.selected_root_identity
  pub source : a.source_path ≡ b.source_path
  pub source_identity : a.source_identity ≡ b.source_identity
  pub source_sha256 : a.source_revision.encoded_sha256 ≡ b.source_revision.encoded_sha256
  pub stage : a.stage_path ≡ b.stage_path
  pub stage_identity : a.stage_identity ≡ b.stage_identity
  pub output_length : a.output_length_bytes ≡ b.output_length_bytes
  pub output_sha256 : a.output_sha256 ≡ b.output_sha256
  pub destination : a.destination_path ≡ b.destination_path

module _ (a b : ImageFileTransactionJournalRecord)
    (h : is_same_record (expected_record a b) b ≡ true) where
  expected_record-IsSameTransaction : IsSameTransaction a b
  unfolding is_same_record expected_record
  expected_record-IsSameTransaction = record {
    identifier = ground arith;
    disposition = is_same_disposition_eq a.output_disposition b.output_disposition (ground arith);
    root = is_same_list_eq a.selected_root_path b.selected_root_path (ground arith);
    root_identity =
        is_same_list_eq a.selected_root_identity b.selected_root_identity (ground arith);
    source = is_same_list_eq a.source_path b.source_path (ground arith);
    source_identity = is_same_list_eq a.source_identity b.source_identity (ground arith);
    source_sha256 =
        is_same_list_eq a.source_revision.encoded_sha256 b.source_revision.encoded_sha256
          (ground arith);
    stage = is_same_list_eq a.stage_path b.stage_path (ground arith);
    stage_identity = is_same_list_eq a.stage_identity b.stage_identity (ground arith);
    output_length = ground arith;
    output_sha256 = is_same_list_eq a.output_sha256 b.output_sha256 (ground arith);
    destination = is_same_list_eq a.destination_path b.destination_path (ground arith);
  }

is_same_record_refl : (a : ImageFileTransactionJournalRecord) → is_same_record a a ≡ true
unfolding is_same_record is_same_disposition
is_same_record_refl a = ground (
  arith,
  is_same_list_refl a.selected_root_path,
  is_same_list_refl a.selected_root_identity,
  is_same_list_refl a.source_path,
  is_same_list_refl a.source_identity,
  is_same_list_refl a.source_revision.encoded_sha256,
  is_same_list_refl a.stage_path,
  is_same_list_refl a.stage_identity,
  is_same_list_refl a.output_sha256,
  is_same_list_refl a.backup_path,
  is_same_list_refl a.backup_identity,
  is_same_list_refl a.destination_path,
)

-- What an accepted generation says of the one before it.
pub record Advances (buffer : CryptographicBuffer) (prior next : ImageFileTransactionJournalRecord)
    : Type 0 where
  pub valid : validate_record buffer next ≡ true
  pub edge : Follows prior.output_disposition prior.state next.state
  pub counted : next.generation ≡ (prior.generation + 1) % 2 ^ 32
  pub same : IsSameTransaction prior next

-- An accepted generation is itself valid, is numbered one later as a 32-bit number, has a state that follows the
-- prior one in the graph, and names the identifier, disposition, root, source, stage, output and
-- destination that the prior one names.
pub validate_successor-Advances :
    (buffer : CryptographicBuffer) (prior next : ImageFileTransactionJournalRecord)
    → validate_successor buffer prior next ≡ true
    → Advances buffer prior next
unfolding validate_successor
validate_successor-Advances buffer prior next h = record {
  valid = ground arith;
  edge = (is_adjacent_iff prior.output_disposition prior.state next.state).0 (ground arith);
  counted = ground arith;
  same = expected_record-IsSameTransaction prior next (ground arith);
}

-- Behind a record whose state is terminal no generation is accepted.
pub terminal_is_last :
    (buffer : CryptographicBuffer) (prior next : ImageFileTransactionJournalRecord)
    → is_terminal prior.state ≡ true
    → validate_successor buffer prior next ≡ false
unfolding validate_successor is_adjacent
terminal_is_last buffer prior next h = ground arith

milestone_step :
    (d : OutputDisposition) (s t : ImageFileTransactionState) (g : ℕ) (has_backup : Bool)
    → Follows d s t
    → t ≢ verified_backup_created
    → validate_milestone s g has_backup (retains_backup d) ≡ true
    → (validate_milestone t (g + 1) has_backup (retains_backup d) ≡ true) × (g ≤ 5)
unfolding validate_milestone
milestone_step d _ _ g has_backup written n h = ground arith
milestone_step d _ _ g has_backup verified n h = ground arith
milestone_step d _ _ g has_backup (backed_up r) n h = absurd (n refl)
milestone_step d _ _ g has_backup committed_behind_backup n h = ground arith
milestone_step d _ _ g has_backup (committed r) n h = ground arith
milestone_step d _ _ g has_backup cleaned n h = ground arith
milestone_step d _ _ g has_backup (abandoned {s} l) n h = ground arith

-- The next generation in state `t`, with all else as it was.
abbrev pub successor :
    ImageFileTransactionJournalRecord
    → ImageFileTransactionState
    → ImageFileTransactionJournalRecord
successor r t = record r { generation = r.generation + 1; state = t }

module _ (buffer : CryptographicBuffer) (r : ImageFileTransactionJournalRecord)
    (t : ImageFileTransactionState) (h : validate_record buffer r ≡ true)
    (f : Follows r.output_disposition r.state t) (n : t ≢ verified_backup_created) where
  successor_milestone :
      (validate_milestone t
          (r.generation + 1)
          (not (is_empty r.backup_identity))
          (retains_backup r.output_disposition)
        ≡ true)
      × (r.generation ≤ 5)
  unfolding validate_record
  successor_milestone =
      milestone_step r.output_disposition r.state t r.generation (not (is_empty r.backup_identity))
        f n (ground arith)

  successor_valid : validate_record buffer (successor r t) ≡ true
  unfolding validate_record
  successor_valid = ground (arith, successor_milestone)

  successor_same : is_same_record (expected_record r (successor r t)) (successor r t) ≡ true
  unfolding expected_record
  successor_same =
      let e : (state_index t == state_index verified_backup_created) ≡ false =
        ground (arith, state_index_eq t verified_backup_created) in
      rw e (is_same_record_refl (successor r t))

  -- From a valid generation, every edge of the graph but the creation of a backup is open: the
  -- next generation, with the new state and all else as it was, is accepted.
  pub validate_successor_along : validate_successor buffer r (successor r t) ≡ true
  unfolding validate_successor
  validate_successor_along =
      let adjacent = (is_adjacent_iff r.output_disposition r.state t).1 f in
      let same = successor_same in
      let valid = successor_valid in let bound = successor_milestone.1 in ground arith
