-- ===== src/Local/Tests.antt =====
-- The retry loop on a handler that fails twice.
use queue.Prelude.{
  true, false, ℕ, ◌+◌, none, some, ◌≡◌, refl, ltb, arith, false, ◌≤◌, if◌then◌else◌,
}
use queue.Prelude.Int.{pos}
use queue.Delivery.Failure.{leaf, uncommitted_error, is_uncommitted}
use queue.Job.{JobOptions, no_options, new_job}
use queue.Local.Queue.{
  LocalQueue, new_local_queue, driver_workerpool, reserve_worker_queue,
  close_worker_queue_when_idle, shut_down,
}
use queue.Local.Queue.Drain.{Reaches, created, work_reserved, DrainInv, Reaches-DrainInv}
use queue.Local.Queue.Closed.{Drains, close_worker_queue_when_idle-exact}
use queue.Local.Retry.{Surroundings, Outcome, answer, retry_budget, job_for_run, run_with_retry}
use queue.Local.Retry.Ends.{Explained, run_with_retry-returns}

-- The first answer is not committed, the second is an application failure, the third is nil.
abbrev flaky : Surroundings
flaky = record {
  handler = λ n ctx job.
      if ltb n 1
      then some (uncommitted_error (leaf "store"))
      else if ltb n 2
      then some (leaf "smtp")
      else none;
  wait_for_local_retry = λ n d. none;
}

abbrev once_more : JobOptions
once_more = record no_options { max_retry = some (pos 1) }

flaky_run :
    run_with_retry 3 flaky none (new_job "emails:send") once_more
    ≡ some (record { result = none; last = 2; last_attempt = 1 })
unfolding run_with_retry
flaky_run = refl

flaky_commits :
    (a i : ℕ)
    → 1 ≤ i
    → is_uncommitted (
        answer flaky none
          (job_for_run (new_job "emails:send") once_more)
          (retry_budget once_more.max_retry)
          a
          i)
      ≡ false
unfolding is_uncommitted answer
flaky_commits a i late = ground arith

run_with_retry-returns_example :
    (out : Outcome) × (run_with_retry
        (1 + retry_budget once_more.max_retry + 1)
        flaky
        none
        (new_job "emails:send")
        once_more
      ≡ some out)
    × Explained flaky none
        (job_for_run (new_job "emails:send") once_more)
        once_more.backoff
        (retry_budget once_more.max_retry)
        out
run_with_retry-returns_example =
    run_with_retry-returns flaky none (new_job "emails:send") once_more 1 flaky_commits

abbrev one_job : LocalQueue
one_job = (reserve_worker_queue (new_local_queue driver_workerpool (pos 2) (pos 2) true) false).1

one_job_reached : Reaches 1 0 one_job
unfolding reserve_worker_queue
one_job_reached = work_reserved (created driver_workerpool (pos 2) (pos 2) true) false refl

Reaches-DrainInv_example : DrainInv 1 0 one_job
Reaches-DrainInv_example = Reaches-DrainInv 1 0 one_job one_job_reached

close_worker_queue_when_idle-exact_example :
    Drains 1 (shut_down one_job) (close_worker_queue_when_idle (shut_down one_job))
close_worker_queue_when_idle-exact_example =
    close_worker_queue_when_idle-exact 1 0 one_job one_job_reached
