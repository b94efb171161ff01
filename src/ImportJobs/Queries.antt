-- ===== src/ImportJobs/Queries.antt =====
-- repositories/import_jobs.py: the creation of a job, and the queries on jobs and mappings.
use cine_gate.Base.{
  ℕ, ◌≡◌, refl, inl, inr, ◌==◌, ltb, leb, if◌then◌else◌, is_some, Bool, true, false, ◌&&◌, ◌||◌,
  Option, none, some, List, [], ◌∷◌, map, max, take, arith, ok, or_raise, Option-cases,
  update_where, select_first, count, select_where, order_by, select_first_sat,
}
use cine_gate.Models.{ℤ, clamp}
use cine_gate.ImportJobs.{
  ImportJob, ImportMessageMap, ImportTables, job_not_found, Imports, select_job, ready,
}

-- A new row has the defaults of its columns.
abbrev pub new_job : ℕ → ℕ → ℕ → ImportJob
new_job id source archive = record {
  id = id;
  source_channel_id = source;
  archive_channel_id = archive;
  status = ready;
  source_high_watermark_id = none;
  archive_baseline_message_id = none;
  last_copied_source_message_id = 0;
  last_reindexed_source_message_id = 0;
  source_total_estimate = none;
  processed_messages = 0;
  copied_messages = 0;
  reconciled_messages = 0;
  skipped_messages = 0;
  reindexed_messages = 0;
  missing_archive_messages = 0;
  owner_progress_message_id = none;
  started_at = none;
  completed_at = none;
  last_error = none;
}

abbrev pub is_pair : ℕ → ℕ → ImportJob → Bool
is_pair source archive j = j.source_channel_id == source && j.archive_channel_id == archive

pub get_job_by_pair : ℕ → ℕ → ImportTables → Option ImportJob
get_job_by_pair source archive s = select_first (λ _ _. true) (is_pair source archive) s.jobs

pub get_job : ℕ → ImportTables → Option ImportJob
get_job id s = select_job id s

-- `INSERT ... ON CONFLICT DO NOTHING` under the constraint `uq_archive_import_jobs_source_archive`.
pub upsert_job : ℕ → ℕ → ℕ → ImportTables → ImportTables
unfolding get_job_by_pair
upsert_job id source archive s =
    if is_some (get_job_by_pair source archive s)
    then s
    else record s { jobs = new_job id source archive ∷ s.jobs }

-- `id` is the UUID that a new row receives.
pub get_or_create_job : ℕ → ℕ → ℕ → Imports ImportJob
unfolding upsert_job get_job_by_pair
get_or_create_job id source archive s =
    let t = upsert_job id source archive s in
    or_raise (get_job_by_pair source archive t) job_not_found t

pub set_owner_progress_message : ℕ → ℕ → ImportTables → ImportTables
set_owner_progress_message id message s = record s {
  jobs =
      update_where (λ j. j.id == id) (λ j. record j { owner_progress_message_id = some message })
        s.jobs;
}

pub is_among : ℕ → List ℕ → Bool
is_among n [] = false
is_among n (m ∷ ms) = m == n || is_among n ms

-- The sources as a list for the set; the early return on no sources gives the same.
pub mapped_source_ids : ℕ → List ℕ → ImportTables → List ℕ
unfolding is_among
mapped_source_ids id sources s =
    map (λ m. m.source_message_id)
      (select_where (λ m. m.job_id == id && is_among m.source_message_id sources) s.mappings)

pub list_mappings_after : ℕ → ℕ → ℤ → ImportTables → List ImportMessageMap
list_mappings_after id after limit s = take (clamp 1 500 limit) (
    order_by (λ m n. leb m.source_message_id n.source_message_id)
      (select_where (λ m. m.job_id == id && ltb after m.source_message_id) s.mappings))

abbrev larger : Option ℕ → ℕ → Option ℕ
larger none n = some n
larger (some m) n = some (max m n)

largest_archive_id : List ImportMessageMap → Option ℕ
largest_archive_id [] = none
largest_archive_id (m ∷ ms) = larger (largest_archive_id ms) m.archive_message_id

pub max_mapped_archive_message_id : ℕ → ImportTables → Option ℕ
unfolding largest_archive_id
max_mapped_archive_message_id id s =
    largest_archive_id (select_where (λ m. m.job_id == id) s.mappings)

pub count_mappings : ℕ → ImportTables → ℕ
count_mappings id s = count (λ m. m.job_id == id) s.mappings

-- A job of the channels that is there is answered with.
found_job :
    (id source archive : ℕ) (s : ImportTables) (j : ImportJob)
    → get_job_by_pair source archive s ≡ some j
    → get_or_create_job id source archive s ≡ (ok j, s)
unfolding get_or_create_job upsert_job
found_job id source archive s j e = rw (e, e) refl

abbrev with_job : ℕ → ℕ → ℕ → ImportTables → ImportTables
with_job id source archive s = record s { jobs = new_job id source archive ∷ s.jobs }

inserted_job :
    (id source archive : ℕ) (s : ImportTables)
    → get_job_by_pair source archive s ≡ none
    → get_job_by_pair source archive (with_job id source archive s)
      ≡ some (new_job id source archive)
unfolding get_job_by_pair select_first
inserted_job id source archive s e = ground (arith, e)

made_job :
    (id source archive : ℕ) (s : ImportTables)
    → get_job_by_pair source archive s ≡ none
    → get_or_create_job id source archive s
      ≡ (ok (new_job id source archive), with_job id source archive s)
unfolding get_or_create_job upsert_job
made_job id source archive s e = rw (e, inserted_job id source archive s e) refl

-- A job that is asked for, and directly after that again by the same channels, is answered with the
-- same job both times, and the second time nothing is written.
pub get_or_create_job_again :
    (id other source archive : ℕ) (s : ImportTables)
    → (j : ImportJob) × (t : ImportTables) × (get_or_create_job id source archive s ≡ (ok j, t))
      × (get_or_create_job other source archive t ≡ (ok j, t))
      × (is_pair source archive j ≡ true)
unfolding get_job_by_pair
get_or_create_job_again id other source archive s =
    elim (Option-cases (get_job_by_pair source archive s)) [
      | inl e ↦ (
        new_job id source archive,
        with_job id source archive s,
        made_job id source archive s e,
        found_job other source archive (with_job id source archive s) (new_job id source archive)
            (inserted_job id source archive s e),
        ground arith,
      )
      | inr (j, e) ↦ (
        j,
        s,
        found_job id source archive s j e,
        found_job other source archive s j e,
        select_first_sat (λ _ _. true) (is_pair source archive) s.jobs j e,
      )
    ]
