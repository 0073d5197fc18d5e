-- ===== src/Delivery/Permits/Ownership.antt =====
-- Which scopes own a context, after `Permit`, its release and `PreserveDeliveryContext`.
use queue.Prelude.{
  ℕ, Bool, true, false, List, [], ◌∷◌, ◌++◌, Option, none, some, ◌+◌, ◌<◌, ◌≡◌, refl, sym, ◌∙◌, ap,
  ◌&&◌, ◌||◌, eqb, eqb_iff, arith, All, inl, inr, Bool-cases, List-cases,
}
use queue.Prelude.Equality.{nat_eq}
use queue.Prelude.Table.{Table, update, update_twice}
use queue.Delivery.Context.{Context, or_background}
use queue.Delivery.Permits.{
  PermitHeap, ContinuationPermit, continuation_permits, permit_of, release, grants, any_grants,
  owns, found, not_found, merged_permits, preserve_delivery_context,
}

eqb_self : (n : ℕ) → eqb n n ≡ true
eqb_self n = (eqb_iff n n).1 refl

eqb_above : (n p : ℕ) → p < n → eqb n p ≡ false
eqb_above n p below = ground arith

any_grants-append :
    (h : PermitHeap) (token : ℕ) (ps qs : List ℕ)
    → any_grants h token (ps ++ qs) ≡ (any_grants h token ps || any_grants h token qs)
unfolding any_grants
any_grants-append h token [] qs = refl
any_grants-append h token (p ∷ ps) qs = elim (Bool-cases (grants h token p)) [
  | inl yes_it ↦ ground (arith, yes_it)
  | inr no_it ↦ ground (arith, no_it, any_grants-append h token ps qs)
]

-- A permit that is found among others grants only what they do.
any_grants-found :
    (h : PermitHeap) (token p : ℕ) (ps : List ℕ)
    → found ps p ≡ true
    → grants h token p ≡ true
    → any_grants h token ps ≡ true
unfolding any_grants found
any_grants-found h token p [] there granted = absurd (ground arith)
any_grants-found h token p (q ∷ qs) there granted = elim (Bool-cases (eqb p q)) [
  | inl same ↦ rw (sym ((eqb_iff p q).0 same)) (ground (arith, granted))
  | inr other ↦
      let rest = any_grants-found h token p qs (ground (arith, there, other)) granted in
      elim (Bool-cases (grants h token q)) [
        | inl yes_it ↦ ground (arith, yes_it)
        | inr no_it ↦ ground (arith, no_it, rest)
      ]
]

any_grants-not_found :
    (h : PermitHeap) (token : ℕ) (replacement ps : List ℕ)
    → (any_grants h token replacement || any_grants h token (not_found replacement ps))
      ≡ (any_grants h token replacement || any_grants h token ps)
unfolding any_grants not_found
any_grants-not_found h token replacement [] = refl
any_grants-not_found h token replacement (p ∷ ps) =
    let rest = any_grants-not_found h token replacement ps in
    elim (Bool-cases (any_grants h token replacement)) [
      | inl yes_it ↦ ground (arith, yes_it)
      | inr no_it ↦ elim (Bool-cases (found replacement p)) [
        | inr absent ↦ ground (arith, no_it, absent, rest)
        | inl there ↦ elim (Bool-cases (grants h token p)) [
          | inl granted ↦
              absurd (ground (arith, no_it, any_grants-found h token p replacement there granted))
          | inr refused ↦ ground (arith, no_it, there, refused, rest)
        ]
      ]
    ]

any_grants-merged_permits :
    (h : PermitHeap) (token : ℕ) (source replacement : List ℕ)
    → any_grants h token (merged_permits source replacement)
      ≡ (any_grants h token replacement || any_grants h token source)
unfolding merged_permits any_grants
any_grants-merged_permits h token [] replacement =
    elim (Bool-cases (any_grants h token replacement)) [
      | inl yes_it ↦ ground (arith, yes_it)
      | inr no_it ↦ ground (arith, no_it)
    ]
any_grants-merged_permits h token (p ∷ ps) replacement =
    elim (List-cases (not_found replacement (p ∷ ps))) [
      | inl empty ↦ ground (arith, empty, any_grants-not_found h token replacement (p ∷ ps))
      | inr (q, qs, more) ↦ ground (
        arith,
        more,
        any_grants-append h token replacement (q ∷ qs),
        any_grants-not_found h token replacement (p ∷ ps),
      )
    ]

-- The context that `PreserveDeliveryContext` builds is owned by just the scopes that own the
-- replacement or the source.
pub owns-preserve_delivery_context :
    (h : PermitHeap) (scope : Option ℕ) (source replacement : Option Context)
    → owns h scope (some (preserve_delivery_context source replacement))
      ≡ (owns h scope replacement || owns h scope source)
unfolding owns preserve_delivery_context or_background continuation_permits any_grants
owns-preserve_delivery_context h none source replacement = refl
owns-preserve_delivery_context h (some token) source none =
    any_grants-merged_permits h token (continuation_permits source) []
owns-preserve_delivery_context h (some token) source (some ctx) =
    any_grants-merged_permits h token (continuation_permits source) ctx.permits

-- A permit beyond those of a list does not change what the list grants.
any_grants-elsewhere :
    (h h' : PermitHeap) (token : ℕ) (ps : List ℕ)
    → ((p : ℕ) → p < h.next → h'.permit p ≡ h.permit p)
    → All (λ p. p < h.next) ps
    → any_grants h' token ps ≡ any_grants h token ps
unfolding any_grants grants
any_grants-elsewhere h h' token [] same old = refl
any_grants-elsewhere h h' token (p ∷ ps) same (old, older) =
    ground (arith, same p old, any_grants-elsewhere h h' token ps same older)

marked_grants :
    (h h' : PermitHeap) (token : ℕ) (ps : List ℕ)
    → ((p : ℕ) → p < h.next → h'.permit p ≡ h.permit p)
    → All (λ p. p < h.next) ps
    → any_grants h' token (ps ++ h.next ∷ []) ≡ (any_grants h token ps || grants h' token h.next)
unfolding any_grants
marked_grants h h' token ps same old = elim (Bool-cases (grants h' token h.next)) [
  | inl yes_it ↦ ground (
    arith,
    yes_it,
    any_grants-append h' token ps (h.next ∷ []),
    any_grants-elsewhere h h' token ps same old,
  )
  | inr no_it ↦ ground (
    arith,
    no_it,
    any_grants-append h' token ps (h.next ∷ []),
    any_grants-elsewhere h h' token ps same old,
  )
]

and_or : (a b : Bool) → (a || b && true) ≡ (a || b)
and_or true b = refl
and_or false true = refl
and_or false false = refl

or_never : (a b : Bool) → (a || b && false) ≡ a
or_never true b = refl
or_never false true = refl
or_never false false = refl

issued_permit : PermitHeap → ℕ → Bool → PermitHeap
issued_permit h token active = record {
  next = h.next + 1;
  permit = update h.permit h.next (record { scope = token; active = active });
}

issued_grants :
    (h : PermitHeap) (token asked : ℕ) (active : Bool) (ps : List ℕ)
    → All (λ p. p < h.next) ps
    → any_grants (issued_permit h token active) asked (ps ++ h.next ∷ [])
      ≡ (any_grants h asked ps || eqb token asked && active)
unfolding issued_permit grants
issued_grants h token asked active ps old = ground (
  arith,
  eqb_self h.next,
  marked_grants h (issued_permit h token active) asked ps
      (λ p below. ground (arith, eqb_above h.next p below)) old,
)

with_permits : PermitHeap → Table ℕ ContinuationPermit → PermitHeap
with_permits h permit = record { next = h.next + 1; permit = permit }

release_issued :
    (h : PermitHeap) (token : ℕ)
    → release (issued_permit h token true) (some h.next) ≡ issued_permit h token false
unfolding release issued_permit with_permits
release_issued h token =
    rw (eqb_self h.next, release)
      (ap (λ permit. with_permits h permit) (update_twice h.permit h.next _ _))

-- While a permit is active its scope owns the marked context, beside the scopes that owned the
-- original; once it is released just these are left. The original's permits were issued before.
pub permit_of-release :
    (h : PermitHeap) (token : ℕ) (ctx : Option Context) (asked : ℕ)
    → All (λ p. p < h.next) (continuation_permits ctx)
    → let issued = permit_of h (some token) ctx in
      (owns issued.2 (some asked) (some issued.0) ≡ (owns h (some asked) ctx || eqb token asked))
      × (owns (release issued.2 issued.1) (some asked) (some issued.0) ≡ owns h (some asked) ctx)
unfolding permit_of owns continuation_permits or_background issued_permit any_grants
permit_of-release h token none asked old = (
  issued_grants h token asked true [] old ∙ and_or (any_grants h asked []) (eqb token asked),
  ap (λ heap. any_grants heap asked ([] ++ h.next ∷ [])) (release_issued h token)
      ∙ issued_grants h token asked false [] old
      ∙ or_never (any_grants h asked []) (eqb token asked),
)
permit_of-release h token (some ctx) asked old = (
  issued_grants h token asked true ctx.permits old
      ∙ and_or (any_grants h asked ctx.permits) (eqb token asked),
  ap (λ heap. any_grants heap asked (ctx.permits ++ h.next ∷ [])) (release_issued h token)
      ∙ issued_grants h token asked false ctx.permits old
      ∙ or_never (any_grants h asked ctx.permits) (eqb token asked),
)
