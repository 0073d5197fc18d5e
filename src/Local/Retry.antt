-- ===== src/Local/Retry.antt =====
-- `runWithRetry` of queue_local.go. The handler and the waits are parameters: what the handler returns
-- on its n-th invocation, and the error of the context after the wait that follows it, if it is done.
-- The permit that each attempt holds is in Delivery/Permits, and the timeout that the job sets on its
-- context shows only in the waits. The loop runs on fuel; Retry/Ends proves how much is enough.
pub mod Ends
use queue.Prelude.{ℕ, zero, suc, ◌+◌, String, Option, none, some, ◌==◌, if◌then◌else◌}
use queue.Prelude.Int.{ℤ, pos, negsuc}
use queue.Delivery.Failure.{Failure}
use queue.Delivery.Attempt.{
  DeliveryAttempt, AttemptDecision, attempt_succeeded, attempt_retry, attempt_failed,
  attempt_redeliver, classify_attempt,
}
use queue.Delivery.Context.{Context, with_delivery_attempt}
use queue.Job.{Job, JobOptions, retry, on_queue, with_attempt}

pub record Surroundings : Type 0 where
  pub handler : ℕ → Context → Job → Option Failure
  pub wait_for_local_retry : ℕ → ℤ → Option Failure

-- `localRedeliveryBackoff`, a millisecond.
abbrev pub local_redelivery_backoff : ℤ
local_redelivery_backoff = pos 1_000_000

-- `maxRetry`
unfoldable pub retry_budget : Option ℤ → ℕ
retry_budget none = 0
retry_budget (some (pos n)) = n
retry_budget (some (negsuc n)) = 0

unfoldable pub job_for_run : Job → JobOptions → Job
unfolding retry on_queue
job_for_run job parsed =
    let limited : Job = elim parsed.max_retry [ none ↦ job | some n ↦ retry job n ] in
    if parsed.queue_name == "" then limited else on_queue limited parsed.queue_name

-- `delay` of a retry
unfoldable pub retry_delay : Option ℤ → ℤ
retry_delay none = pos 0
retry_delay (some d) = d

unfoldable pub delivery_of : ℕ → ℕ → DeliveryAttempt
delivery_of budget attempt = record { number = pos attempt; max_retry = pos budget }

-- What the handler returns on invocation n, its attempt.
unfoldable pub answer : Surroundings → Option Context → Job → ℕ → ℕ → ℕ → Option Failure
unfolding with_delivery_attempt with_attempt delivery_of
answer w ctx job budget attempt n =
    w.handler n (with_delivery_attempt ctx (delivery_of budget attempt))
      (with_attempt job (pos attempt))

-- The error that `runWithRetry` returns, with the invocation and the attempt that ended the loop.
pub record Outcome : Type 0 where
  pub result : Option Failure
  pub last : ℕ
  pub last_attempt : ℕ

unfoldable pub ended : ℕ → ℕ → Option Failure → Option Outcome
ended attempt n result = some (record { result = result; last = n; last_attempt = attempt })

unfoldable pub run_attempts :
    ℕ → Surroundings → Option Context → Job → Option ℤ → ℕ → ℕ → ℕ → Option Outcome
unfolding ended answer retry_delay classify_attempt delivery_of
run_attempts zero w ctx job backoff budget attempt n = none
run_attempts (suc fuel) w ctx job backoff budget attempt n =
    let failure = answer w ctx job budget attempt n in
    elim (classify_attempt (delivery_of budget attempt) failure) [
      | attempt_succeeded ↦ ended attempt n none
      | attempt_failed ↦ ended attempt n failure
      | attempt_retry ↦ elim (w.wait_for_local_retry n (retry_delay backoff)) [
        | some e ↦ ended attempt n (some e)
        | none ↦ run_attempts fuel w ctx job backoff budget (attempt + 1) (n + 1)
      ]
      | attempt_redeliver ↦ elim (w.wait_for_local_retry n local_redelivery_backoff) [
        | some e ↦ ended attempt n (some e)
        | none ↦ run_attempts fuel w ctx job backoff budget attempt (n + 1)
      ]
    ]

unfoldable pub run_with_retry :
    ℕ → Surroundings → Option Context → Job → JobOptions → Option Outcome
unfolding run_attempts job_for_run retry_budget
run_with_retry fuel w ctx job parsed =
    run_attempts fuel w ctx (job_for_run job parsed) parsed.backoff (retry_budget parsed.max_retry)
      0 0
