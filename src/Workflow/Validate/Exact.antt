-- ===== src/Workflow/Validate/Exact.antt =====
-- What `validateChainRecord` and `validateBatchRecord` accept.
use queue.Prelude.{
  ◌==◌, eq_iff, ◌≡◌, ◌≢◌, ◌↔◌, refl, false, String, List, [], ◌∷◌, ok, All, arith, Bool-cases, inl,
  inr,
}
use queue.Workflow.Types.{
  ChainRecord, BatchRecord, Error, chain_node_id_required, duplicate_node, batch_job_id_required,
  duplicate_job,
}
use queue.Workflow.Validate.{
  contains, check_ids, is_empty, node_ids, job_ids, validate_chain_record, validate_batch_record,
}

-- No two entries are the same.
abbrev pub IsDistinct : List String → Type 0
IsDistinct [] = Unit
IsDistinct (x ∷ xs) = All (λ y. x ≢ y) xs × IsDistinct xs

-- Every identifier is there, and identifies one entry.
abbrev pub IsIdentifying : List String → Type 0
IsIdentifying ids = All (λ id. id ≢ "") ids × IsDistinct ids

-- None of the second list is in the first.
abbrev IsFresh : List String → List String → Type 0
IsFresh seen xs = All (λ x. contains seen x ≡ false) xs

to_IsFresh :
    (s : String) (seen xs : List String)
    → IsFresh (s ∷ seen) xs
    → All (λ y. s ≢ y) xs × IsFresh seen xs
unfolding contains
to_IsFresh s seen [] h = (tt, tt)
to_IsFresh s seen (x ∷ xs) h =
    let rest = to_IsFresh s seen xs h.1 in
    ((ground (arith, eq_iff s x), rest.0), (ground (arith, eq_iff s x), rest.1))

from_IsFresh :
    (s : String) (seen xs : List String)
    → All (λ y. s ≢ y) xs
    → IsFresh seen xs
    → IsFresh (s ∷ seen) xs
unfolding contains
from_IsFresh s seen [] h k = tt
from_IsFresh s seen (x ∷ xs) h k = (ground (arith, eq_iff s x), from_IsFresh s seen xs h.1 k.1)

all-IsFresh : (xs : List String) → IsFresh [] xs
unfolding contains
all-IsFresh [] = tt
all-IsFresh (x ∷ xs) = (refl, all-IsFresh xs)

module _ (missing : Error) (duplicate : String → Error) where
  check_ids_sound :
      (seen xs : List String)
      → check_ids missing duplicate seen xs ≡ ok tt
      → IsIdentifying xs × IsFresh seen xs
  unfolding check_ids
  check_ids_sound seen [] h = ((tt, tt), tt)
  check_ids_sound seen (x ∷ xs) h = elim (Bool-cases (x == "")) [
    | inl e ↦ absurd (ground arith)
    | inr e ↦ elim (Bool-cases (contains seen x)) [
      | inl f ↦ absurd (ground arith)
      | inr f ↦
          let rest = check_ids_sound (x ∷ seen) xs (ground arith) in
          let apart = to_IsFresh x seen xs rest.1 in
          (((ground (arith, eq_iff x ""), rest.0.0), (apart.0, rest.0.1)), (f, apart.1))
    ]
  ]

  check_ids_complete :
      (seen xs : List String)
      → IsIdentifying xs
      → IsFresh seen xs
      → check_ids missing duplicate seen xs ≡ ok tt
  unfolding check_ids
  check_ids_complete seen [] h k = refl
  check_ids_complete seen (x ∷ xs) h k = ground (
    arith,
    eq_iff x "",
    check_ids_complete (x ∷ seen) xs (h.0.1, h.1.1) (from_IsFresh x seen xs h.1.0 k.1),
  )

  check_ids_exact :
      (xs : List String) → (check_ids missing duplicate [] xs ≡ ok tt) ↔ IsIdentifying xs
  check_ids_exact xs =
      (λ h. (check_ids_sound [] xs h).0, λ h. check_ids_complete [] xs h (all-IsFresh xs))

is_empty_iff {ℓ} : {A : Type ℓ} (xs : List A) → (is_empty xs ≡ false) ↔ (xs ≢ [])
is_empty_iff [] = (λ h. cc, λ h. absurd (h refl))
is_empty_iff (x ∷ xs) = (λ _ h. cc, λ _. refl)

-- A chain record is accepted exactly when it names the chain and has at least one node, and its
-- node identifiers are not empty and pairwise distinct.
pub validate_chain_record-exact :
    (r : ChainRecord)
    → (validate_chain_record r ≡ ok tt)
      ↔ ((r.chain_id ≢ "") × (r.nodes ≢ []) × IsIdentifying (node_ids r.nodes))
unfolding validate_chain_record
validate_chain_record-exact r = (sound, complete)
  where
    ids :
        (check_ids chain_node_id_required duplicate_node [] (node_ids r.nodes) ≡ ok tt)
        ↔ IsIdentifying (node_ids r.nodes)
    ids = check_ids_exact chain_node_id_required duplicate_node (node_ids r.nodes)

    sound :
        validate_chain_record r ≡ ok tt
        → (r.chain_id ≢ "") × (r.nodes ≢ []) × IsIdentifying (node_ids r.nodes)
    sound h = (
      ground (arith, eq_iff r.chain_id ""),
      (is_empty_iff r.nodes).0 (ground arith),
      ids.0 (ground arith),
    )

    complete :
        (r.chain_id ≢ "") × (r.nodes ≢ []) × IsIdentifying (node_ids r.nodes)
        → validate_chain_record r ≡ ok tt
    complete (named, filled, distinct) =
        ground (arith, eq_iff r.chain_id "", (is_empty_iff r.nodes).1 filled, ids.1 distinct)

-- A batch record is accepted exactly when it names the batch and has at least one member, and its
-- member identifiers are not empty and pairwise distinct.
pub validate_batch_record-exact :
    (r : BatchRecord)
    → (validate_batch_record r ≡ ok tt)
      ↔ ((r.batch_id ≢ "") × (r.jobs ≢ []) × IsIdentifying (job_ids r.jobs))
unfolding validate_batch_record
validate_batch_record-exact r = (sound, complete)
  where
    ids :
        (check_ids batch_job_id_required duplicate_job [] (job_ids r.jobs) ≡ ok tt)
        ↔ IsIdentifying (job_ids r.jobs)
    ids = check_ids_exact batch_job_id_required duplicate_job (job_ids r.jobs)

    sound :
        validate_batch_record r ≡ ok tt
        → (r.batch_id ≢ "") × (r.jobs ≢ []) × IsIdentifying (job_ids r.jobs)
    sound h = (
      ground (arith, eq_iff r.batch_id ""),
      (is_empty_iff r.jobs).0 (ground arith),
      ids.0 (ground arith),
    )

    complete :
        (r.batch_id ≢ "") × (r.jobs ≢ []) × IsIdentifying (job_ids r.jobs)
        → validate_batch_record r ≡ ok tt
    complete (named, filled, distinct) =
        ground (arith, eq_iff r.batch_id "", (is_empty_iff r.jobs).1 filled, ids.1 distinct)
