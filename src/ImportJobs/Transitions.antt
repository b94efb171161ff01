-- ===== src/ImportJobs/Transitions.antt =====
-- The states of an import job, and the methods that move it between them.
use cine_gate.Base.{
  ℕ, ◌≡◌, ◌⊎◌, refl, inl, inr, is_some, is_none, true, false, some, arith, String, Option-cases,
  Bool-cases, Result, ok, err, All, All-put,
}
use cine_gate.ImportJobs.{
  ImportStatus, running, paused, transferred, reindexing, completed, failed, ImportJob,
  ImportTables, job_key, put_job, select_job, require_job, is_allowed, transition, mark,
  mark_running, mark_paused, mark_failed, mark_transferred, mark_reindexing, mark_completed,
  ImportError, invalid_transition,
}

-- A mark of a job that is there: by `is_allowed` it writes the row in its new status, or it raises
-- and writes nothing.
pub mark_cases :
    (target : ImportStatus) (write : ImportJob → ImportJob) (id : ℕ) (s : ImportTables)
    (j : ImportJob)
    → select_job id s ≡ some j
    → (let row = write (record j { status = target }) in
        (is_allowed j.status target ≡ true) × (mark target write id s ≡ (ok row, put_job row s)))
      ⊎ ((is_allowed j.status target ≡ false)
          × (mark target write id s ≡ (err invalid_transition, s)))
unfolding mark transition require_job
mark_cases target write id s j e = elim (Bool-cases (is_allowed j.status target)) [
  | inl f ↦ inl (f, rw (e, f) refl)
  | inr f ↦ inr (f, rw (e, f) refl)
]

-- What the columns of a job say of its status.
pub record JobOk (j : ImportJob) : Type 0 where
  pub started : j.status ≡ running → (is_some j.started_at ≡ true) × (is_none j.completed_at ≡ true)
  pub finished : j.status ≡ completed → is_some j.completed_at ≡ true
  pub stopped : (j.status ≡ paused) ⊎ (j.status ≡ failed) → is_some j.last_error ≡ true

-- The writes of the methods `mark_...`.
pub data Mark : Type 0 where
  to_running : ℕ → Mark
  to_paused : String → Mark
  to_failed : String → Mark
  to_transferred to_reindexing : Mark
  to_completed : ℕ → Mark

unfoldable pub run_mark : Mark → ℕ → ImportTables → Result ImportError ImportJob × ImportTables
unfolding mark_running mark_paused mark_failed mark_transferred mark_reindexing mark_completed
run_mark (to_running now) id s = mark_running now id s
run_mark (to_paused error) id s = mark_paused error id s
run_mark (to_failed error) id s = mark_failed error id s
run_mark to_transferred id s = mark_transferred id s
run_mark to_reindexing id s = mark_reindexing id s
run_mark (to_completed now) id s = mark_completed now id s

mark-All :
    (target : ImportStatus) (write : ImportJob → ImportJob)
    → ((j : ImportJob) → JobOk (write (record j { status = target })))
    → (id : ℕ) (s : ImportTables) → All JobOk s.jobs
    → All JobOk (mark target write id s).1.jobs
unfolding mark require_job
mark-All target write good id s v = elim (Option-cases (select_job id s)) [
  | inl e ↦ rw e v
  | inr (j, e) ↦ elim (mark_cases target write id s j e) [
    | inl (f, step) ↦
        rw step (All-put job_key JobOk (write (record j { status = target })) s.jobs v (good j))
    | inr (f, step) ↦ rw step v
  ]
]

-- Where the columns of every job agree with its status, they still do after any mark, refused or
-- not.
pub run_mark-JobOk :
    (m : Mark) (id : ℕ) (s : ImportTables) → All JobOk s.jobs → All JobOk (run_mark m id s).1.jobs
unfolding run_mark mark_running mark_paused mark_failed mark_transferred mark_reindexing
    mark_completed
run_mark-JobOk (to_running now) id s v = mark-All running _ (λ j. ground arith) id s v
run_mark-JobOk (to_paused error) id s v = mark-All paused _ (λ j. ground arith) id s v
run_mark-JobOk (to_failed error) id s v = mark-All failed _ (λ j. ground arith) id s v
run_mark-JobOk to_transferred id s v = mark-All transferred _ (λ j. ground arith) id s v
run_mark-JobOk to_reindexing id s v = mark-All reindexing _ (λ j. ground arith) id s v
run_mark-JobOk (to_completed now) id s v = mark-All completed _ (λ j. ground arith) id s v
