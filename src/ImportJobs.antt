-- ===== src/ImportJobs.antt =====
-- repositories/import_jobs.py: ArchiveImportRepository, the state and the checkpoints of the import.
--
-- The methods run inside the transaction of their caller. An identifier of a job or a message is a
-- number; Telegram numbers the messages of a channel from 1, and the order of the numbers matters.
-- `now` is the clock.
pub mod Transitions
pub mod Batches
pub mod Replay
pub mod Queries
mod Examples
use cine_gate.Base.{
  ℕ, ◌+◌, ◌≡◌, ◌==◌, ltb, leb, if◌then◌else◌, is_some, is_none, or_else, Bool, true, false, not,
  ◌&&◌, ◌||◌, String, Option, none, some, List, [], ◌∷◌, map, max, min, length, take, Exec, Result,
  ok, err, pure, raise, gets, or_raise, modify, ◌>>=◌, ◌>>◌, update_where, select_first, count,
  lookup, put, truncate, select_where, order_by,
}

pub data ImportStatus : Type 0 where
  ready running paused transferred reindexing completed failed : ImportStatus

-- A row of `archive_import_jobs`, which is also what `_snapshot` copies of it.
pub record ImportJob : Type 0 where
  pub id : ℕ
  pub source_channel_id : ℕ
  pub archive_channel_id : ℕ
  pub status : ImportStatus
  pub source_high_watermark_id : Option ℕ
  pub archive_baseline_message_id : Option ℕ
  pub last_copied_source_message_id : ℕ
  pub last_reindexed_source_message_id : ℕ
  pub source_total_estimate : Option ℕ
  pub processed_messages : ℕ
  pub copied_messages : ℕ
  pub reconciled_messages : ℕ
  pub skipped_messages : ℕ
  pub reindexed_messages : ℕ
  pub missing_archive_messages : ℕ
  pub owner_progress_message_id : Option ℕ
  pub started_at : Option ℕ
  pub completed_at : Option ℕ
  pub last_error : Option String

-- A row of `archive_import_message_map`.
pub record ImportMessageMap : Type 0 where
  pub job_id : ℕ
  pub source_message_id : ℕ
  pub archive_message_id : ℕ
  pub reindexed_at : Option ℕ

pub record ImportTables : Type 0 where
  pub jobs : List ImportJob
  pub mappings : List ImportMessageMap

pub data ImportError : Type 0 where
  job_not_found invalid_transition mapping_disappeared : ImportError

abbrev pub Imports : Type 0 → Type 0
Imports = Exec ImportTables ImportError

abbrev pub job_key : ImportJob → ℕ
job_key j = j.id

abbrev pub put_job : ImportJob → ImportTables → ImportTables
put_job j s = record s { jobs = put job_key j s.jobs }

abbrev pub select_job : ℕ → ImportTables → Option ImportJob
select_job id s = lookup job_key id s.jobs

unfoldable pub require_job : ℕ → Imports ImportJob
require_job id s = or_raise (select_job id s) job_not_found s

-- `status == target or target in _ALLOWED_TRANSITIONS[status]`, as `_transition` tests it.
pub is_allowed : ImportStatus → ImportStatus → Bool
is_allowed ready running = true
is_allowed ready failed = true
is_allowed ready ready = true
is_allowed running paused = true
is_allowed running failed = true
is_allowed running transferred = true
is_allowed running running = true
is_allowed paused running = true
is_allowed paused reindexing = true
is_allowed paused failed = true
is_allowed paused paused = true
is_allowed failed running = true
is_allowed failed reindexing = true
is_allowed failed failed = true
is_allowed transferred running = true
is_allowed transferred reindexing = true
is_allowed transferred transferred = true
is_allowed reindexing paused = true
is_allowed reindexing failed = true
is_allowed reindexing completed = true
is_allowed reindexing reindexing = true
is_allowed completed reindexing = true
is_allowed completed completed = true
is_allowed _ _ = false

-- `_transition`.
pub transition : ImportStatus → ImportJob → Imports ImportJob
unfolding is_allowed
transition target j =
    if is_allowed j.status target
    then pure (record j { status = target })
    else raise invalid_transition

-- The row is read, its status is set, its columns are written.
pub mark : ImportStatus → (ImportJob → ImportJob) → ℕ → Imports ImportJob
unfolding require_job transition
mark target write id = do
  j ← require_job id
  moved ← transition target j
  modify (put_job (write moved))
  pure (write moved)

pub mark_running : ℕ → ℕ → Imports ImportJob
unfolding mark
mark_running now id =
    mark running
      (λ j. record j {
        started_at = some (or_else j.started_at now);
        completed_at = none;
        last_error = none;
      })
      id

-- `_bounded_error`.
abbrev pub bounded_error : String → String
bounded_error error = truncate 2000 error

pub mark_paused : String → ℕ → Imports ImportJob
unfolding mark
mark_paused error id = mark paused (λ j. record j { last_error = some (bounded_error error) }) id

pub mark_failed : String → ℕ → Imports ImportJob
unfolding mark
mark_failed error id = mark failed (λ j. record j { last_error = some (bounded_error error) }) id

pub mark_transferred : ℕ → Imports ImportJob
unfolding mark
mark_transferred id = mark transferred (λ j. record j { last_error = none }) id

pub mark_reindexing : ℕ → Imports ImportJob
unfolding mark
mark_reindexing id = mark reindexing (λ j. record j { last_error = none }) id

pub mark_completed : ℕ → ℕ → Imports ImportJob
unfolding mark
mark_completed now id =
    mark completed (λ j. record j { completed_at = some now; last_error = none }) id

-- `initialize_snapshot`.
pub initialize_snapshot : ℕ → ℕ → ℕ → Option ℕ → Imports ImportJob
unfolding require_job
initialize_snapshot id high baseline estimate = do
  j ← require_job id
  if is_none j.source_high_watermark_id
      then (do
        let row = record j {
          source_high_watermark_id = some high;
          archive_baseline_message_id = some baseline;
          source_total_estimate = estimate;
        }
        modify (put_job row)
        pure row)
      else pure j
