-- ===== src/Engine/SameJob.antt =====
-- `storedJobsEqual` of internal/workflow/chain.go, by which a recovery trusts a delivery's job.
use queue.Prelude.{◌≡◌, ◌↔◌, refl, ℕ, true, List, [], ◌∷◌, eqb_iff, eq_iff, arith, ap, subst}
use queue.Prelude.Int.{ℤ, pos, negsuc, eqb_ℤ}
use queue.Workflow.Types.{JobOptions, StoredJob}
use queue.Engine.ChainRecovery.{equal_bytes, equal_options, stored_jobs_equal}

integers_agree : (a b : ℤ) → eqb_ℤ a b ≡ true → a ≡ b
integers_agree (pos a) (pos b) h = ap pos ((eqb_iff a b).0 h)
integers_agree (pos a) (negsuc b) h = cc
integers_agree (negsuc a) (pos b) h = cc
integers_agree (negsuc a) (negsuc b) h = ap negsuc ((eqb_iff a b).0 h)

integers_refl : (a : ℤ) → eqb_ℤ a a ≡ true
integers_refl (pos a) = ground arith
integers_refl (negsuc a) = ground arith

bytes_agree : (a b : List ℕ) → equal_bytes a b ≡ true → a ≡ b
unfolding equal_bytes
bytes_agree [] [] h = refl
bytes_agree [] (y ∷ b) h = cc
bytes_agree (x ∷ a) [] h = cc
bytes_agree (x ∷ a) (y ∷ b) h = ground (arith, h, bytes_agree a b)

bytes_refl : (a : List ℕ) → equal_bytes a a ≡ true
unfolding equal_bytes
bytes_refl [] = refl
bytes_refl (x ∷ a) = ground (arith, bytes_refl a)

options_agree : (a b : JobOptions) → equal_options a b ≡ true → a ≡ b
unfolding equal_options
options_agree a b h = ground (
  arith,
  h,
  eq_iff a.queue_name b.queue_name,
  integers_agree a.delay b.delay,
  integers_agree a.timeout b.timeout,
  integers_agree a.retry b.retry,
  integers_agree a.backoff b.backoff,
  integers_agree a.unique_for b.unique_for,
)

options_refl : (a : JobOptions) → equal_options a a ≡ true
unfolding equal_options
options_refl a = ground (
  arith,
  eq_iff a.queue_name a.queue_name,
  integers_refl a.delay,
  integers_refl a.timeout,
  integers_refl a.retry,
  integers_refl a.backoff,
  integers_refl a.unique_for,
)

jobs_agree : (a b : StoredJob) → stored_jobs_equal a b ≡ true → a ≡ b
unfolding stored_jobs_equal
jobs_agree a b h = ground (
  arith,
  h,
  eq_iff a.type b.type,
  bytes_agree a.payload b.payload,
  options_agree a.options b.options,
)

jobs_refl : (a : StoredJob) → stored_jobs_equal a a ≡ true
unfolding stored_jobs_equal
jobs_refl a = ground (arith, eq_iff a.type a.type, bytes_refl a.payload, options_refl a.options)

-- Two stored jobs pass the comparison exactly when their types, payloads and options are the same.
pub stored_jobs_equal-exact : (a b : StoredJob) → (stored_jobs_equal a b ≡ true) ↔ (a ≡ b)
stored_jobs_equal-exact a b =
    (jobs_agree a b, λ same. subst (λ c. stored_jobs_equal a c ≡ true) same (jobs_refl a))
