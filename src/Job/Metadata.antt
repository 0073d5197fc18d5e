-- ===== src/Job/Metadata.antt =====
-- Metadata that drivers attach to a job: `DriverWithMetadata` and `DriverMetadata` of job.go.
use queue.Prelude.{
  ap, ◌∙◌, Bool, true, false, List, [], ◌∷◌, ◌≡◌, refl, arith, inl, inr, Bool-cases, if◌then◌else◌,
}
use queue.Prelude.Int.{eqb_ℤ}
use queue.Delivery.Context.{DeliveryMetadata, delivery_metadata_version, no_metadata}
use queue.Job.{
  Job, encode_payload, with_payload, with_build_err, on_queue, timeout, retry, backoff, delay,
  unique_for, driver_metadata, driver_with_metadata,
}
use queue.Job.Build.{
  Build, payload_of, queue_of, timeout_of, retry_of, backoff_of, delay_of, unique_of, metadata_of,
  build, build_all,
}

-- The builder calls of an application, which attach no metadata.
unfoldable pub is_application : Build → Bool
is_application (metadata_of m) = false
is_application _ = true

-- The metadata that a driver can read.
unfoldable pub readable : DeliveryMetadata → DeliveryMetadata
readable m = if eqb_ℤ m.schema_version delivery_metadata_version then m else no_metadata

-- The last metadata of a supported version among the calls, or else what there was before.
unfoldable pub attached : DeliveryMetadata → List Build → DeliveryMetadata
attached before [] = before
attached before (metadata_of m ∷ bs) =
    let now = if eqb_ℤ m.schema_version delivery_metadata_version then m else before in
    attached now bs
attached before (payload_of p ∷ bs) = attached before bs
attached before (queue_of name ∷ bs) = attached before bs
attached before (timeout_of d ∷ bs) = attached before bs
attached before (retry_of n ∷ bs) = attached before bs
attached before (backoff_of d ∷ bs) = attached before bs
attached before (delay_of d ∷ bs) = attached before bs
attached before (unique_of d ∷ bs) = attached before bs

-- The calls without those that attach metadata.
unfoldable pub application_calls : List Build → List Build
unfolding is_application
application_calls [] = []
application_calls (b ∷ bs) =
    let rest = application_calls bs in if is_application b then b ∷ rest else rest

-- The job but for its metadata.
unfoldable pub apart_from_metadata : Job → Job
apart_from_metadata t = record t { options = record t.options { metadata = no_metadata } }

-- What one call does to the metadata that a driver reads.
build-driver_metadata :
    (t : Job) (b : Build) → driver_metadata (build t b) ≡ attached (driver_metadata t) (b ∷ [])
unfolding build attached driver_metadata driver_with_metadata with_payload encode_payload
    with_build_err on_queue timeout retry backoff delay unique_for
build-driver_metadata t (metadata_of m) =
    elim (Bool-cases (eqb_ℤ m.schema_version delivery_metadata_version)) [
      | inl supported ↦ ground (arith, supported)
      | inr unknown ↦ ground (arith, unknown)
    ]
build-driver_metadata t (payload_of p) = ground arith
build-driver_metadata t (queue_of name) = refl
build-driver_metadata t (timeout_of d) = ground arith
build-driver_metadata t (retry_of n) = ground arith
build-driver_metadata t (backoff_of d) = ground arith
build-driver_metadata t (delay_of d) = ground arith
build-driver_metadata t (unique_of d) = ground arith

attached-step :
    (m : DeliveryMetadata) (b : Build) (bs : List Build)
    → attached (attached m (b ∷ [])) bs ≡ attached m (b ∷ bs)
unfolding attached
attached-step m (metadata_of n) bs = refl
attached-step m (payload_of p) bs = refl
attached-step m (queue_of name) bs = refl
attached-step m (timeout_of d) bs = refl
attached-step m (retry_of n) bs = refl
attached-step m (backoff_of d) bs = refl
attached-step m (delay_of d) bs = refl
attached-step m (unique_of d) bs = refl

build_all-driver_metadata :
    (t : Job) (bs : List Build) → driver_metadata (build_all t bs) ≡ attached (driver_metadata t) bs
unfolding build_all attached
build_all-driver_metadata t [] = refl
build_all-driver_metadata t (b ∷ bs) =
    build_all-driver_metadata (build t b) bs
    ∙ ap (λ m. attached m bs) (build-driver_metadata t b)
    ∙ attached-step (driver_metadata t) b bs

driver_metadata-readable : (t : Job) → driver_metadata t ≡ readable t.options.metadata
unfolding driver_metadata readable
driver_metadata-readable t = ground arith

-- Jobs that differ in their metadata only still do after the same call.
build-apart :
    (t u : Job) (b : Build)
    → apart_from_metadata t ≡ apart_from_metadata u
    → is_application b ≡ true
    → apart_from_metadata (build t b) ≡ apart_from_metadata (build u b)
unfolding build is_application apart_from_metadata with_payload encode_payload with_build_err
    on_queue timeout retry backoff delay unique_for
build-apart t u b same h = ground (arith, same, h)

attach-apart :
    (t : Job) (m : DeliveryMetadata)
    → apart_from_metadata (driver_with_metadata t m) ≡ apart_from_metadata t
unfolding apart_from_metadata driver_with_metadata
attach-apart t m = ground arith

build_all-apart :
    (t u : Job) (bs : List Build)
    → apart_from_metadata t ≡ apart_from_metadata u
    → apart_from_metadata (build_all t bs)
      ≡ apart_from_metadata (build_all u (application_calls bs))
unfolding build_all application_calls is_application
build_all-apart t u [] same = same
build_all-apart t u (metadata_of m ∷ bs) same =
    build_all-apart (driver_with_metadata t m) u bs (attach-apart t m ∙ same)
build_all-apart t u (payload_of p ∷ bs) same =
    build_all-apart _ _ bs (build-apart t u (payload_of p) same (unfold is_application in refl))
build_all-apart t u (queue_of name ∷ bs) same =
    build_all-apart _ _ bs (build-apart t u (queue_of name) same (unfold is_application in refl))
build_all-apart t u (timeout_of d ∷ bs) same =
    build_all-apart _ _ bs (build-apart t u (timeout_of d) same (unfold is_application in refl))
build_all-apart t u (retry_of n ∷ bs) same =
    build_all-apart _ _ bs (build-apart t u (retry_of n) same (unfold is_application in refl))
build_all-apart t u (backoff_of d ∷ bs) same =
    build_all-apart _ _ bs (build-apart t u (backoff_of d) same (unfold is_application in refl))
build_all-apart t u (delay_of d ∷ bs) same =
    build_all-apart _ _ bs (build-apart t u (delay_of d) same (unfold is_application in refl))
build_all-apart t u (unique_of d ∷ bs) same =
    build_all-apart _ _ bs (build-apart t u (unique_of d) same (unfold is_application in refl))

-- Whatever metadata a job carries and whatever calls follow, a driver reads the last metadata of a
-- supported version that was attached, or else what the job carried if its version is supported, or else
-- none; and the attachments change nothing else of the job: its type, payload, error and options are
-- what the other calls alone make of it.
pub driver_metadata-build_all :
    (t : Job) (bs : List Build)
    → (driver_metadata (build_all t bs) ≡ attached (readable t.options.metadata) bs)
      × (apart_from_metadata (build_all t bs)
          ≡ apart_from_metadata (build_all t (application_calls bs)))
driver_metadata-build_all t bs = (
  build_all-driver_metadata t bs ∙ ap (λ m. attached m bs) (driver_metadata-readable t),
  build_all-apart t t bs refl,
)
