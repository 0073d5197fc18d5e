-- ===== src/Job/Tests.antt =====
-- Jobs built on small inputs.
use queue.Prelude.{Bool, List, [], ◌∷◌, ◌&&◌, not, ◌==◌, ◌≡◌, refl}
use queue.Prelude.Int.{pos, negsuc}
use queue.Delivery.Context.{DeliveryMetadata, no_metadata}
use queue.Job.{new_job, bytes, validate, driver_metadata}
use queue.Job.Metadata.{
  attached, readable, apart_from_metadata, application_calls, driver_metadata-build_all,
}
use queue.Job.Build.{
  Build, payload_of, metadata_of, retry_of, timeout_of, build_all, are_usable, is_none, IsPolicy,
  validate-build_all-exact, build_all-new_job-IsPolicy,
}

abbrev calls : List Build
calls = payload_of (bytes (123 ∷ 125 ∷ [])) ∷ retry_of (pos 3) ∷ timeout_of (negsuc 0) ∷ []

calls_usable : are_usable calls ≡ Bool.false
unfolding are_usable
calls_usable = refl

validate-build_all-exact_example :
    is_none (validate (build_all (new_job "emails:send") calls))
    ≡ (are_usable calls && not ("emails:send" == ""))
validate-build_all-exact_example = validate-build_all-exact "emails:send" calls

build_all-new_job-IsPolicy_example : IsPolicy (build_all (new_job "emails:send") calls).options
build_all-new_job-IsPolicy_example = build_all-new_job-IsPolicy "emails:send" calls

abbrev correlated : DeliveryMetadata
correlated = record no_metadata { schema_version = pos 1; job_id = "job-1" }

-- The first metadata is read, since the second has no supported version.
abbrev attaching : List Build
attaching =
    retry_of (pos 3)
    ∷ metadata_of correlated
    ∷ metadata_of (record correlated { schema_version = pos 9 })
    ∷ []

driver_metadata-build_all_example :
    (driver_metadata (build_all (new_job "emails:send") attaching)
      ≡ attached (readable (new_job "emails:send").options.metadata) attaching)
    × (apart_from_metadata (build_all (new_job "emails:send") attaching)
        ≡ apart_from_metadata (build_all (new_job "emails:send") (application_calls attaching)))
driver_metadata-build_all_example = driver_metadata-build_all (new_job "emails:send") attaching

attaching_reads :
    attached (readable (new_job "emails:send").options.metadata) attaching ≡ correlated
unfolding attached
attaching_reads = refl
