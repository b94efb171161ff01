-- ===== src/ImportJobs/Batches.antt =====
-- repositories/import_jobs.py: the mappings of a job, the batches of the import, and the reindexing.
use cine_gate.Base.{
  ℕ, ◌+◌, ◌==◌, ltb, leb, if◌then◌else◌, is_none, Bool, true, false, ◌&&◌, ◌||◌, none, some, List,
  [], ◌∷◌, max, ok, pure, gets, or_raise, modify, ◌>>=◌, ◌>>◌, update_where, select_first,
}
use cine_gate.ImportJobs.{
  ImportJob, ImportMessageMap, Imports, put_job, require_job, mapping_disappeared,
}

-- The row would break the primary key or the constraint `uq_archive_import_map_job_archive_message`.
unfoldable pub conflicts : ImportMessageMap → List ImportMessageMap → Bool
conflicts m [] = false
conflicts m (n ∷ rows) =
    n.job_id == m.job_id
      && (n.source_message_id == m.source_message_id
          || n.archive_message_id == m.archive_message_id)
    || conflicts m rows

abbrev pub mapping_of : ℕ → ℕ × ℕ → ImportMessageMap
mapping_of id (source, archive) = record {
  job_id = id;
  source_message_id = source;
  archive_message_id = archive;
  reindexed_at = none;
}

-- `INSERT ... ON CONFLICT DO NOTHING`: one row after the other, and the number of rows inserted.
unfoldable pub insert_mappings :
    ℕ → List (ℕ × ℕ) → List ImportMessageMap → ℕ × List ImportMessageMap
unfolding conflicts
insert_mappings id [] rows = (0, rows)
insert_mappings id (pair ∷ pairs) rows = elim (conflicts (mapping_of id pair) rows) [
  | true ↦ insert_mappings id pairs rows
  | false ↦ let (n, after) = insert_mappings id pairs (mapping_of id pair ∷ rows) in (n + 1, after)
]

-- `_insert_mappings`.
unfoldable pub insert_pairs : ℕ → List (ℕ × ℕ) → Imports ℕ
unfolding insert_mappings
insert_pairs id pairs s =
    let (n, after) = insert_mappings id pairs s.mappings in (ok n, record s { mappings = after })

-- `record_reconciled_mappings`.
unfoldable pub record_reconciled_mappings : ℕ → List (ℕ × ℕ) → Imports ℕ
unfolding insert_pairs require_job
record_reconciled_mappings id pairs = do
  inserted ← insert_pairs id pairs
  if ltb 0 inserted
      then (do
        j ← require_job id
        modify (
            put_job (record j {
              copied_messages = j.copied_messages + inserted;
              reconciled_messages = j.reconciled_messages + inserted;
            }))
        pure inserted)
      else pure inserted

-- `record_transfer_batch`; its counts are not negative.
unfoldable pub record_transfer_batch : ℕ → ℕ → ℕ → ℕ → List (ℕ × ℕ) → Imports ℕ
unfolding insert_pairs require_job
record_transfer_batch id through processed skipped pairs = do
  inserted ← insert_pairs id pairs
  j ← require_job id
  if leb through j.last_copied_source_message_id then pure inserted else do
    modify (
        put_job (record j {
          last_copied_source_message_id = through;
          processed_messages = j.processed_messages + processed;
          skipped_messages = j.skipped_messages + skipped;
          copied_messages = j.copied_messages + inserted;
        }))
    pure inserted

abbrev pub is_mapping : ℕ → ℕ → ImportMessageMap → Bool
is_mapping id source m = m.job_id == id && m.source_message_id == source

abbrev pub reach : ℕ → ImportJob → ImportJob
reach source j = record j {
  last_reindexed_source_message_id = max source j.last_reindexed_source_message_id;
}

-- The counter of a message that is indexed, or missing from the archive.
abbrev pub count_reindexed : Bool → ImportJob → ImportJob
count_reindexed true j = record j { missing_archive_messages = j.missing_archive_messages + 1 }
count_reindexed false j = record j { reindexed_messages = j.reindexed_messages + 1 }

-- `mark_reindexed`.
unfoldable pub mark_reindexed : ℕ → ℕ → ℕ → Bool → Imports (Unit {0})
unfolding require_job
mark_reindexed now id source missing = do
  j ← require_job id
  found ← gets (λ s. select_first (λ _ _. true) (is_mapping id source) s.mappings)
  m ← or_raise found mapping_disappeared
  if is_none m.reindexed_at
      then (do
        modify (λ s. record s {
          mappings =
              update_where (is_mapping id source) (λ n. record n { reindexed_at = some now })
                s.mappings;
        })
        modify (put_job (reach source (count_reindexed missing j))))
      else modify (put_job (reach source j))
