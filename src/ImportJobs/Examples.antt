-- ===== src/ImportJobs/Examples.antt =====
-- The theorems on the import repository at a concrete job, and tests of its code.
use cine_gate.Base.{◌≡◌, refl, some, none, [], ◌∷◌, arith, ok, err, true, lookup, All}
use cine_gate.ImportJobs.{
  ImportJob, ImportMessageMap, ImportTables, ready, require_job, invalid_transition, mark,
  mark_completed, transition, is_allowed,
}
use cine_gate.ImportJobs.Batches.{insert_mappings, insert_pairs, conflicts, record_transfer_batch}
use cine_gate.ImportJobs.Transitions.{JobOk, to_running, run_mark, run_mark-JobOk}
use cine_gate.ImportJobs.Queries.{is_pair, get_or_create_job, get_or_create_job_again}
use cine_gate.ImportJobs.Replay.{record_transfer_batch_again}

abbrev job : ImportJob
job = record {
  id = 1;
  source_channel_id = 100;
  archive_channel_id = 200;
  status = ready;
  source_high_watermark_id = some 50;
  archive_baseline_message_id = some 9;
  last_copied_source_message_id = 3;
  last_reindexed_source_message_id = 0;
  source_total_estimate = some 40;
  processed_messages = 3;
  copied_messages = 1;
  reconciled_messages = 0;
  skipped_messages = 2;
  reindexed_messages = 0;
  missing_archive_messages = 0;
  owner_progress_message_id = none;
  started_at = none;
  completed_at = none;
  last_error = none;
}

abbrev copied : ImportMessageMap
copied = record { job_id = 1; source_message_id = 2; archive_message_id = 10; reindexed_at = none }

abbrev tables : ImportTables
tables = record { jobs = job ∷ []; mappings = copied ∷ [] }

-- Of a batch of two mappings, one is there already.
batch_lem : (record_transfer_batch 1 6 3 1 ((2, 10) ∷ (5, 11) ∷ []) tables).0 ≡ ok 1
unfolding record_transfer_batch insert_pairs insert_mappings conflicts require_job lookup
batch_lem = refl

-- A job that has not run cannot be completed.
completed_lem : mark_completed 8 1 tables ≡ (err invalid_transition, tables)
unfolding mark_completed mark require_job lookup transition is_allowed
completed_lem = refl

record_transfer_batch_again_example :
    let after = (record_transfer_batch 1 6 3 1 ((2, 10) ∷ (5, 11) ∷ []) tables).1 in
    record_transfer_batch 1 6 3 1 ((2, 10) ∷ (5, 11) ∷ []) after ≡ (ok 0, after)
unfolding lookup
record_transfer_batch_again_example =
    record_transfer_batch_again 1 6 3 1 ((2, 10) ∷ (5, 11) ∷ []) tables job refl

run_mark-JobOk_example : All JobOk (run_mark (to_running 8) 1 tables).1.jobs
run_mark-JobOk_example = run_mark-JobOk (to_running 8) 1 tables (ground arith, tt)

get_or_create_job_again_example :
    (j : ImportJob) × (t : ImportTables) × (get_or_create_job 4 100 300 tables ≡ (ok j, t))
    × (get_or_create_job 5 100 300 t ≡ (ok j, t))
    × (is_pair 100 300 j ≡ true)
get_or_create_job_again_example = get_or_create_job_again 4 5 100 300 tables
