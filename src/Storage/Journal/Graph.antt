-- ===== src/Storage/Journal/Graph.antt =====
-- The transaction's states as a graph, and the journal's records along its edges.
use jpg_spinner.Prelude.{◌≤◌, ◌≡◌, ◌↔◌, true, false, arith}
use jpg_spinner.Storage.Journal.{is_adjacent}
use jpg_spinner.Storage.Records.{
  ImageFileTransactionState, transaction_initialized, staged_output_written,
  staged_output_hash_verified, verified_backup_created, output_committed,
  owned_staging_artifacts_cleaned, transaction_abandoned_before_commit, state_index,
  OutputDisposition, retains_backup,
}

-- The edges: only the mode that retains a backup passes through its creation, the commit comes
-- behind the verified stage or the backup, and abandonment comes before the commit.
pub data Follows (d : OutputDisposition)
    : ImageFileTransactionState → ImageFileTransactionState → Type 0 where
  written : Follows d transaction_initialized staged_output_written
  verified : Follows d staged_output_written staged_output_hash_verified
  backed_up :
      retains_backup d ≡ true → Follows d staged_output_hash_verified verified_backup_created
  committed_behind_backup : Follows d verified_backup_created output_committed
  committed : retains_backup d ≡ false → Follows d staged_output_hash_verified output_committed
  cleaned : Follows d output_committed owned_staging_artifacts_cleaned
  abandoned :
      {s : ImageFileTransactionState}
      → state_index s ≤ 3
      → Follows d s transaction_abandoned_before_commit

is_adjacent-Follows :
    (d : OutputDisposition) (s t : ImageFileTransactionState)
    → is_adjacent d s t ≡ true
    → Follows d s t
unfolding is_adjacent
is_adjacent-Follows d s transaction_abandoned_before_commit h = abandoned (ground arith)
is_adjacent-Follows d transaction_initialized staged_output_written h = written
is_adjacent-Follows d staged_output_written staged_output_hash_verified h = verified
is_adjacent-Follows d staged_output_hash_verified verified_backup_created h =
    backed_up (ground arith)
is_adjacent-Follows d verified_backup_created output_committed h = committed_behind_backup
is_adjacent-Follows d staged_output_hash_verified output_committed h = committed (ground arith)
is_adjacent-Follows d output_committed owned_staging_artifacts_cleaned h = cleaned
is_adjacent-Follows d _ _ h = absurd (ground arith)

Follows-is_adjacent :
    (d : OutputDisposition) (s t : ImageFileTransactionState)
    → Follows d s t
    → is_adjacent d s t ≡ true
unfolding is_adjacent
Follows-is_adjacent d _ _ written = ground arith
Follows-is_adjacent d _ _ verified = ground arith
Follows-is_adjacent d _ _ (backed_up r) = ground arith
Follows-is_adjacent d _ _ committed_behind_backup = ground arith
Follows-is_adjacent d _ _ (committed r) = ground arith
Follows-is_adjacent d _ _ cleaned = ground arith
Follows-is_adjacent d _ _ (abandoned l) = ground arith

-- A transition is adjacent in the sense of the code exactly when it is an edge of the graph.
pub is_adjacent_iff :
    (d : OutputDisposition) (s t : ImageFileTransactionState)
    → (is_adjacent d s t ≡ true) ↔ Follows d s t
is_adjacent_iff d s t = (is_adjacent-Follows d s t, Follows-is_adjacent d s t)
