-- ===== src/Job/Build.antt =====
-- Jobs as chains of builder calls make them.
use queue.Prelude.{
  Bool, true, false, ◌&&◌, not, String, List, [], ◌∷◌, Option, none, some, ◌≡◌, refl, arith, ok,
  err, ◌==◌, inl, inr, Bool-cases, Option-cases, Result-cases, if◌then◌else◌,
}
use queue.Prelude.Int.{ℤ, pos, ltb_ℤ, leb_ℤ, eqb_ℤ}
use queue.Delivery.Failure.{Failure}
use queue.Delivery.Context.{DeliveryMetadata, delivery_metadata_version}
use queue.Job.{
  Job, JobOptions, Payload, new_job, encode_payload, with_payload, with_build_err, on_queue,
  timeout, retry, backoff, delay, unique_for, validate, driver_with_metadata,
}

-- One builder call.
pub data Build : Type 0 where
  payload_of : Payload → Build
  queue_of : String → Build
  timeout_of : ℤ → Build
  retry_of : ℤ → Build
  backoff_of : ℤ → Build
  delay_of : ℤ → Build
  unique_of : ℤ → Build
  metadata_of : DeliveryMetadata → Build

unfoldable pub build : Job → Build → Job
unfolding with_payload on_queue timeout retry backoff delay unique_for driver_with_metadata
build t (payload_of p) = with_payload t p
build t (queue_of name) = on_queue t name
build t (timeout_of d) = timeout t d
build t (retry_of n) = retry t n
build t (backoff_of d) = backoff t d
build t (delay_of d) = delay t d
build t (unique_of d) = unique_for t d
build t (metadata_of m) = driver_with_metadata t m

unfoldable pub build_all : Job → List Build → Job
unfolding build
build_all t [] = t
build_all t (b ∷ bs) = build_all (build t b) bs

abbrev pub is_none {ℓ} : {A : Type ℓ} → Option A → Bool
is_none none = true
is_none (some a) = false

-- The calls whose argument the program can use.
unfoldable pub is_usable : Build → Bool
unfolding encode_payload
is_usable (payload_of p) = elim (encode_payload p) [ err e ↦ false | ok encoded ↦ true ]
is_usable (queue_of name) = true
is_usable (timeout_of d) = leb_ℤ (pos 0) d
is_usable (retry_of n) = leb_ℤ (pos 0) n
is_usable (backoff_of d) = leb_ℤ (pos 0) d
is_usable (delay_of d) = leb_ℤ (pos 0) d
is_usable (unique_of d) = leb_ℤ (pos 0) d
is_usable (metadata_of m) = true

unfoldable pub are_usable : List Build → Bool
unfolding is_usable
are_usable [] = true
are_usable (b ∷ bs) = is_usable b && are_usable bs

abbrev is_natural : Option ℤ → Bool
is_natural none = true
is_natural (some n) = leb_ℤ (pos 0) n

-- No policy of a job is negative.
pub record IsPolicy (o : JobOptions) : Type 0 where
  timeout : is_natural o.timeout ≡ true
  max_retry : is_natural o.max_retry ≡ true
  backoff : is_natural o.backoff ≡ true
  delay : leb_ℤ (pos 0) o.delay ≡ true
  unique_ttl : leb_ℤ (pos 0) o.unique_ttl ≡ true

negative : (d : ℤ) → leb_ℤ (pos 0) d ≡ not (ltb_ℤ d (pos 0))
negative (pos n) = ground arith
negative (ℤ.negsuc n) = refl

with_build_err-fails : (t : Job) (e : Failure) → is_none (with_build_err t e).build_err ≡ false
unfolding with_build_err
with_build_err-fails t e = elim (Option-cases t.build_err) [
  | inl absent ↦ ground (arith, absent)
  | inr (first, there) ↦ ground (arith, there)
]

with_build_err-options : (t : Job) (e : Failure) → (with_build_err t e).options ≡ t.options
unfolding with_build_err
with_build_err-options t e = elim (Option-cases t.build_err) [
  | inl absent ↦ ground (arith, absent)
  | inr (first, there) ↦ ground (arith, there)
]

with_build_err-type : (t : Job) (e : Failure) → (with_build_err t e).type ≡ t.type
unfolding with_build_err
with_build_err-type t e = elim (Option-cases t.build_err) [
  | inl absent ↦ ground (arith, absent)
  | inr (first, there) ↦ ground (arith, there)
]

-- A job that a builder returns for a duration or a count, given the job with the option set.
guarded : Job → ℤ → Failure → Job → Job
guarded t d e set = if ltb_ℤ d (pos 0) then with_build_err t e else set

guarded-build_err :
    (t : Job) (d : ℤ) (e : Failure) (set : Job)
    → set.build_err ≡ t.build_err
    → is_none (guarded t d e set).build_err ≡ (leb_ℤ (pos 0) d && is_none t.build_err)
unfolding guarded
guarded-build_err t d e set same = elim (Bool-cases (ltb_ℤ d (pos 0))) [
  | inl below ↦ ground (arith, below, negative d, with_build_err-fails t e)
  | inr above ↦ ground (arith, above, negative d, same)
]

guarded-type :
    (t : Job) (d : ℤ) (e : Failure) (set : Job)
    → set.type ≡ t.type
    → (guarded t d e set).type ≡ t.type
unfolding guarded
guarded-type t d e set same = elim (Bool-cases (ltb_ℤ d (pos 0))) [
  | inl below ↦ ground (arith, below, with_build_err-type t e)
  | inr above ↦ ground (arith, above, same)
]

guarded-IsPolicy :
    (t : Job) (d : ℤ) (e : Failure) (set : Job)
    → IsPolicy t.options
    → (leb_ℤ (pos 0) d ≡ true → IsPolicy set.options)
    → IsPolicy (guarded t d e set).options
unfolding guarded
guarded-IsPolicy t d e set policy new = elim (Bool-cases (ltb_ℤ d (pos 0))) [
  | inl below ↦ rw (below, with_build_err-options t e) policy
  | inr above ↦ rw above (new (ground (arith, above, negative d)))
]

build-build_err :
    (t : Job) (b : Build) → is_none (build t b).build_err ≡ (is_usable b && is_none t.build_err)
unfolding build is_usable with_payload on_queue timeout retry backoff delay unique_for
    driver_with_metadata guarded
build-build_err t (payload_of p) = elim (Result-cases (encode_payload p)) [
  | inl (e, fails) ↦ ground (arith, fails)
  | inr (encoded, works) ↦ ground (arith, works)
]
build-build_err t (queue_of name) = refl
build-build_err t (timeout_of d) = guarded-build_err t d _ _ refl
build-build_err t (retry_of n) = guarded-build_err t n _ _ refl
build-build_err t (backoff_of d) = guarded-build_err t d _ _ refl
build-build_err t (delay_of d) = guarded-build_err t d _ _ refl
build-build_err t (unique_of d) = guarded-build_err t d _ _ refl
build-build_err t (metadata_of m) = ground arith

build-type : (t : Job) (b : Build) → (build t b).type ≡ t.type
unfolding build with_payload on_queue timeout retry backoff delay unique_for driver_with_metadata
    guarded
build-type t (payload_of p) = elim (Result-cases (encode_payload p)) [
  | inl (e, fails) ↦ ground (arith, fails)
  | inr (encoded, works) ↦ ground (arith, works)
]
build-type t (queue_of name) = refl
build-type t (timeout_of d) = guarded-type t d _ _ refl
build-type t (retry_of n) = guarded-type t n _ _ refl
build-type t (backoff_of d) = guarded-type t d _ _ refl
build-type t (delay_of d) = guarded-type t d _ _ refl
build-type t (unique_of d) = guarded-type t d _ _ refl
build-type t (metadata_of m) = ground arith

build-IsPolicy : (t : Job) (b : Build) → IsPolicy t.options → IsPolicy (build t b).options
unfolding build with_payload on_queue timeout retry backoff delay unique_for driver_with_metadata
    guarded
build-IsPolicy t (payload_of p) policy = elim (Result-cases (encode_payload p)) [
  | inl (e, fails) ↦ rw (fails, with_payload) policy
  | inr (encoded, works) ↦ rw (works, with_payload) policy
]
build-IsPolicy t (queue_of name) policy = record {
  timeout = policy.timeout;
  max_retry = policy.max_retry;
  backoff = policy.backoff;
  delay = policy.delay;
  unique_ttl = policy.unique_ttl;
}
build-IsPolicy t (timeout_of d) policy = guarded-IsPolicy t d _ _ policy (λ h. record {
  timeout = h;
  max_retry = policy.max_retry;
  backoff = policy.backoff;
  delay = policy.delay;
  unique_ttl = policy.unique_ttl;
})
build-IsPolicy t (retry_of n) policy = guarded-IsPolicy t n _ _ policy (λ h. record {
  timeout = policy.timeout;
  max_retry = h;
  backoff = policy.backoff;
  delay = policy.delay;
  unique_ttl = policy.unique_ttl;
})
build-IsPolicy t (backoff_of d) policy = guarded-IsPolicy t d _ _ policy (λ h. record {
  timeout = policy.timeout;
  max_retry = policy.max_retry;
  backoff = h;
  delay = policy.delay;
  unique_ttl = policy.unique_ttl;
})
build-IsPolicy t (delay_of d) policy = guarded-IsPolicy t d _ _ policy (λ h. record {
  timeout = policy.timeout;
  max_retry = policy.max_retry;
  backoff = policy.backoff;
  delay = h;
  unique_ttl = policy.unique_ttl;
})
build-IsPolicy t (unique_of d) policy = guarded-IsPolicy t d _ _ policy (λ h. record {
  timeout = policy.timeout;
  max_retry = policy.max_retry;
  backoff = policy.backoff;
  delay = policy.delay;
  unique_ttl = h;
})
build-IsPolicy t (metadata_of m) policy =
    elim (Bool-cases (eqb_ℤ m.schema_version delivery_metadata_version)) [
      | inl supported ↦ rw supported (record {
        timeout = policy.timeout;
        max_retry = policy.max_retry;
        backoff = policy.backoff;
        delay = policy.delay;
        unique_ttl = policy.unique_ttl;
      })
      | inr unknown ↦ rw unknown policy
    ]

build_all-IsPolicy :
    (t : Job) (bs : List Build) → IsPolicy t.options → IsPolicy (build_all t bs).options
unfolding build_all
build_all-IsPolicy t [] policy = policy
build_all-IsPolicy t (b ∷ bs) policy = build_all-IsPolicy (build t b) bs (build-IsPolicy t b policy)

-- Whatever builder calls make a job, no timeout, retry count, backoff, delay or uniqueness period of
-- it is negative.
pub build_all-new_job-IsPolicy :
    (type : String) (bs : List Build) → IsPolicy (build_all (new_job type) bs).options
unfolding new_job
build_all-new_job-IsPolicy type bs =
    build_all-IsPolicy (new_job type) bs
      (record { timeout = refl; max_retry = refl; backoff = refl; delay = refl; unique_ttl = refl })

build_all-build_err :
    (t : Job) (bs : List Build)
    → is_none (build_all t bs).build_err ≡ (are_usable bs && is_none t.build_err)
unfolding build_all are_usable
build_all-build_err t [] = ground arith
build_all-build_err t (b ∷ bs) =
    ground (arith, build_all-build_err (build t b) bs, build-build_err t b)

build_all-type : (t : Job) (bs : List Build) → (build_all t bs).type ≡ t.type
unfolding build_all
build_all-type t [] = refl
build_all-type t (b ∷ bs) = ground (arith, build_all-type (build t b) bs, build-type t b)

-- A job is valid exactly when it has a type and every builder call that made it was given a payload
-- that encodes or a value that is not negative; no later call hides an earlier mistake.
pub validate-build_all-exact :
    (type : String) (bs : List Build)
    → is_none (validate (build_all (new_job type) bs)) ≡ (are_usable bs && not (type == ""))
unfolding validate new_job
validate-build_all-exact type bs = elim (Option-cases (build_all (new_job type) bs).build_err) [
  | inl clean ↦
      ground (arith, clean, build_all-build_err (new_job type) bs, build_all-type (new_job type) bs)
  | inr (e, failed) ↦ ground (arith, failed, build_all-build_err (new_job type) bs)
]
