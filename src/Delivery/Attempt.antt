-- ===== src/Delivery/Attempt.antt =====
-- `DeliveryAttempt` and `ClassifyAttempt` of busruntime/runtime.go.
use queue.Prelude.{Bool, Option, none, some, ◌||◌, if◌then◌else◌}
use queue.Prelude.Int.{ℤ, leb_ℤ}
use queue.Delivery.Failure.{Failure, is_permanent, is_uncommitted}

pub record DeliveryAttempt : Type 0 where
  pub number : ℤ
  pub max_retry : ℤ

unfoldable pub exhausted : DeliveryAttempt → Bool
exhausted a = leb_ℤ a.max_retry a.number

pub data AttemptDecision : Type 0 where
  attempt_succeeded : AttemptDecision
  attempt_retry : AttemptDecision
  attempt_failed : AttemptDecision
  attempt_redeliver : AttemptDecision

unfoldable pub classify_attempt : DeliveryAttempt → Option Failure → AttemptDecision
unfolding exhausted is_permanent is_uncommitted
classify_attempt attempt none = attempt_succeeded
classify_attempt attempt (some e) =
    if is_uncommitted (some e)
    then attempt_redeliver
    else if is_permanent (some e) || exhausted attempt
    then attempt_failed
    else attempt_retry
