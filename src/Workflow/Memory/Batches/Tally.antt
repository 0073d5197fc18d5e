-- ===== src/Workflow/Memory/Batches/Tally.antt =====
-- Counting the entries of the map `jobs` of a batch of internal/workflow/store_memory.go.
use queue.Prelude.{
  ◌≡◌, ◌≢◌, refl, ◌==◌, eq_iff, ℕ, ◌+◌, ◌≤◌, ◌&&◌, Bool, true, false, not, String, List, [], ◌∷◌,
  ◌++◌, some, All, arith, length, length-map, sym, ◌∙◌, if◌then◌else◌, map, Bool-cases, inl, inr,
}
use mathlib.Core.List.{append-nil, append_assoc}
use queue.Workflow.Types.{BatchJob}
use queue.Workflow.Validate.{job_ids}
use queue.Workflow.Validate.Exact.{IsDistinct}
use queue.Workflow.Memory.Store.{BatchJobStatus}
use queue.Workflow.Memory.Batches.{find_job, set_job, fresh, fresh_jobs}

abbrev pub Jobs : Type 0
Jobs = List (String × BatchJobStatus)

abbrev one : Bool → ℕ
one true = 1
one false = 0

-- How many entries have the property.
pub tally : (BatchJobStatus → Bool) → Jobs → ℕ
tally p [] = 0
tally p ((j, status) ∷ jobs) = one (p status) + tally p jobs

-- Setting an entry counts the new status in place of the old.
pub tally-set_job :
    (p : BatchJobStatus → Bool) (jobs : Jobs) (id : String) (old status : BatchJobStatus)
    → find_job jobs id ≡ some old
    → tally p (set_job jobs id status) + one (p old) ≡ tally p jobs + one (p status)
unfolding tally find_job set_job
tally-set_job p [] id old status h = cc
tally-set_job p ((j, s) ∷ jobs) id old status h = elim (Bool-cases (j == id)) [
  | inl e ↦ ground arith
  | inr e ↦ ground (arith, tally-set_job p jobs id old status)
]

pub length-set_job :
    (jobs : Jobs) (id : String) (old status : BatchJobStatus)
    → find_job jobs id ≡ some old
    → length (set_job jobs id status) ≡ length jobs
unfolding find_job set_job
length-set_job [] id old status h = cc
length-set_job ((j, s) ∷ jobs) id old status h = ground (arith, length-set_job jobs id old status)

pub find_job-set_job :
    (jobs : Jobs) (id other : String) (status : BatchJobStatus)
    → find_job (set_job jobs id status) other
      ≡ (if id == other then some status else find_job jobs other)
unfolding find_job set_job
find_job-set_job [] id other status = refl
find_job-set_job ((j, s) ∷ jobs) id other status =
    ground
      (arith, eq_iff j id, eq_iff j other, eq_iff id other, find_job-set_job jobs id other status)

-- Done and not done are all.
pub tally-not :
    (p : BatchJobStatus → Bool) (jobs : Jobs)
    → tally p jobs + tally (λ s. not (p s)) jobs ≡ length jobs
unfolding tally
tally-not p [] = omega arith
tally-not p ((j, s) ∷ jobs) = ground (arith, tally-not p jobs)

abbrev pub entries : List BatchJob → Jobs
entries = map (λ job. (job.job_id, fresh))

set_job-absent :
    (jobs : Jobs) (id : String) (status : BatchJobStatus)
    → All (λ e. id ≢ e.0) jobs
    → set_job jobs id status ≡ jobs ++ (id, status) ∷ []
unfolding set_job
set_job-absent [] id status h = refl
set_job-absent ((j, s) ∷ jobs) id status h =
    ground (arith, eq_iff j id, set_job-absent jobs id status h.1)

-- No entry has the identifier.
abbrev Absent : String → Jobs → Type 0
Absent id = All (λ e. id ≢ e.0)

Absent-append : (id : String) (xs ys : Jobs) → Absent id xs → Absent id ys → Absent id (xs ++ ys)
Absent-append id [] ys h k = k
Absent-append id (x ∷ xs) ys h k = (h.0, Absent-append id xs ys h.1 k)

-- None of the members is entered, once the first is too.
still-Absent :
    (id : String) (acc : Jobs) (rest : List BatchJob)
    → All (λ y. id ≢ y) (job_ids rest)
    → All (λ job. Absent job.job_id acc) rest
    → All (λ job. Absent job.job_id (acc ++ (id, fresh) ∷ [])) rest
still-Absent id acc [] h k = tt
still-Absent id acc (job ∷ rest) h k = (
  Absent-append job.job_id acc ((id, fresh) ∷ []) k.0 (λ e. h.0 (sym e), tt),
  still-Absent id acc rest h.1 k.1,
)

fresh_jobs-from :
    (acc : Jobs) (jobs : List BatchJob)
    → IsDistinct (job_ids jobs)
    → All (λ job. Absent job.job_id acc) jobs
    → fresh_jobs acc jobs ≡ acc ++ entries jobs
unfolding fresh_jobs
fresh_jobs-from acc [] d h = sym (append-nil acc)
fresh_jobs-from acc (job ∷ jobs) d h =
    let added = set_job-absent acc job.job_id fresh h.0 in
    let step =
      fresh_jobs-from (acc ++ (job.job_id, fresh) ∷ []) jobs d.1
        (still-Absent job.job_id acc jobs d.0 h.1) in
    rw added (step ∙ append_assoc acc ((job.job_id, fresh) ∷ []) (entries jobs))

none_entered : (jobs : List BatchJob) → All (λ job. Absent job.job_id []) jobs
none_entered [] = tt
none_entered (job ∷ jobs) = (tt, none_entered jobs)

-- Distinct members are each entered once.
pub fresh_jobs-eq :
    (jobs : List BatchJob) → IsDistinct (job_ids jobs) → fresh_jobs [] jobs ≡ entries jobs
fresh_jobs-eq jobs d = fresh_jobs-from [] jobs d (none_entered jobs)

pub tally-entries :
    (p : BatchJobStatus → Bool) (jobs : List BatchJob)
    → tally p (entries jobs) ≡ (if p fresh then length jobs else 0)
unfolding tally
tally-entries p [] = ground arith
tally-entries p (job ∷ jobs) = ground (arith, tally-entries p jobs)

pub length-entries : (jobs : List BatchJob) → length (entries jobs) ≡ length jobs
length-entries jobs = length-map (λ job. (job.job_id, fresh)) jobs

-- Every entry is counted as done or as not done.
pub done_or_waiting :
    (jobs : Jobs) → tally (λ s. not s.done) jobs + tally (λ s. s.done) jobs ≡ length jobs
unfolding tally
done_or_waiting [] = refl
done_or_waiting ((id, s) ∷ jobs) = elim (Bool-cases s.done) [
  | inl h ↦ ground (arith, h, done_or_waiting jobs)
  | inr h ↦ ground (arith, h, done_or_waiting jobs)
]

pub failed_are_done :
    (jobs : Jobs) → tally (λ s. s.done && s.failed) jobs ≤ tally (λ s. s.done) jobs
unfolding tally
failed_are_done [] = omega arith
failed_are_done ((id, s) ∷ jobs) = elim (Bool-cases s.done) [
  | inl h ↦ ground (arith, h, failed_are_done jobs)
  | inr h ↦ ground (arith, h, failed_are_done jobs)
]
