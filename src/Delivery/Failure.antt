-- ===== src/Delivery/Failure.antt =====
-- Go errors as busruntime/runtime.go and dispatch_acceptance.go see them: a tree that `errors.As`
-- searches, with the wrapper types of the two files among its nodes.
use queue.Prelude.{
  inl, inr, arith, Bool, true, false, String, Option, none, some, ◌≡◌, ◌||◌, if◌then◌else◌,
  Bool-cases,
}

-- `leaf` is an error without `Unwrap`, `wrapped` one of `fmt.Errorf` with `%w`, and `joined` an error
-- that unwraps to several, of which more than two are nested. An error is `none` where it is nil.
pub data Failure : Type 0 where
  leaf : String → Failure
  wrapped : String → Failure → Failure
  joined : String → Failure → Failure → Failure
  permanent_error : Failure → Failure
  uncommitted_error : Failure → Failure
  accepted_execution_error : Failure → Failure

-- The methods `Error` of the wrapper types.
unfoldable pub error_text : Failure → String
error_text (leaf text) = text
error_text (wrapped text cause) = text
error_text (joined text first second) = text
error_text (permanent_error cause) = error_text cause
error_text (uncommitted_error cause) = error_text cause
error_text (accepted_execution_error cause) = error_text cause

unfoldable pub is_permanent_failure : Failure → Bool
is_permanent_failure (leaf text) = false
is_permanent_failure (wrapped text cause) = is_permanent_failure cause
is_permanent_failure (joined text first second) =
    is_permanent_failure first || is_permanent_failure second
is_permanent_failure (permanent_error cause) = true
is_permanent_failure (uncommitted_error cause) = is_permanent_failure cause
is_permanent_failure (accepted_execution_error cause) = is_permanent_failure cause

unfoldable pub is_uncommitted_failure : Failure → Bool
is_uncommitted_failure (leaf text) = false
is_uncommitted_failure (wrapped text cause) = is_uncommitted_failure cause
is_uncommitted_failure (joined text first second) =
    is_uncommitted_failure first || is_uncommitted_failure second
is_uncommitted_failure (permanent_error cause) = is_uncommitted_failure cause
is_uncommitted_failure (uncommitted_error cause) = true
is_uncommitted_failure (accepted_execution_error cause) = is_uncommitted_failure cause

unfoldable pub is_permanent : Option Failure → Bool
unfolding is_permanent_failure
is_permanent none = false
is_permanent (some e) = is_permanent_failure e

unfoldable pub is_uncommitted : Option Failure → Bool
unfolding is_uncommitted_failure
is_uncommitted none = false
is_uncommitted (some e) = is_uncommitted_failure e

unfoldable pub permanent : Option Failure → Option Failure
unfolding is_permanent
permanent none = none
permanent (some e) = if is_permanent (some e) then some e else some (permanent_error e)

unfoldable pub uncommitted : Option Failure → Option Failure
unfolding is_uncommitted
uncommitted none = none
uncommitted (some e) = if is_uncommitted (some e) then some e else some (uncommitted_error e)

pub permanent_marks : (e : Failure) → is_permanent (permanent (some e)) ≡ true
unfolding permanent
permanent_marks e = elim (Bool-cases (is_permanent_failure e)) [
  | inl yes_it ↦ ground (arith, yes_it)
  | inr no_it ↦ ground (arith, no_it)
]

pub uncommitted_marks : (e : Failure) → is_uncommitted (uncommitted (some e)) ≡ true
unfolding uncommitted
uncommitted_marks e = elim (Bool-cases (is_uncommitted_failure e)) [
  | inl yes_it ↦ ground (arith, yes_it)
  | inr no_it ↦ ground (arith, no_it)
]
