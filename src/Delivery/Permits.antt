-- ===== src/Delivery/Permits.antt =====
-- `ContinuationScope`, its permits and `PreserveDeliveryContext` of busruntime/runtime.go. The heap
-- holds the permits; a scope's token is a number, and a scope is `none` where it or its token is nil.
pub mod Ownership
use queue.Prelude.{
  ℕ, Bool, true, false, String, List, [], ◌∷◌, ◌++◌, Option, none, some, ◌+◌, ◌&&◌, ◌||◌, eqb,
  if◌then◌else◌,
}
use queue.Prelude.Equality.{nat_eq}
use queue.Prelude.Table.{Table, update}
use queue.Delivery.Context.{
  Context, background, or_background, delivery_settlement_from_context,
  delivery_provenance_from_context,
}

pub record ContinuationPermit : Type 0 where
  pub scope : ℕ
  pub active : Bool

-- `next` is the address of the next permit.
pub record PermitHeap : Type 0 where
  pub next : ℕ
  pub permit : Table ℕ ContinuationPermit

unfoldable pub continuation_permits : Option Context → List ℕ
continuation_permits none = []
continuation_permits (some ctx) = ctx.permits

-- `Permit`; the second result is the permit that the release function clears.
unfoldable pub permit_of : PermitHeap → Option ℕ → Option Context → Context × Option ℕ × PermitHeap
unfolding or_background continuation_permits
permit_of h none ctx = (or_background ctx, none, h)
permit_of h (some token) ctx =
    let base = or_background ctx in
    (
      record base { permits = base.permits ++ h.next ∷ [] },
      some h.next,
      record {
        next = h.next + 1;
        permit = update h.permit h.next (record { scope = token; active = true });
      },
    )

-- The release function.
unfoldable pub release : PermitHeap → Option ℕ → PermitHeap
release h none = h
release h (some p) = elim (h.permit p) [
  | none ↦ h
  | some permit ↦ record h { permit = update h.permit p (record permit { active = false }) }
]

unfoldable pub grants : PermitHeap → ℕ → ℕ → Bool
grants h token p = elim (h.permit p) [
  | none ↦ false
  | some permit ↦ eqb permit.scope token && permit.active
]

unfoldable pub any_grants : PermitHeap → ℕ → List ℕ → Bool
unfolding grants
any_grants h token [] = false
any_grants h token (p ∷ ps) = grants h token p || any_grants h token ps

unfoldable pub owns : PermitHeap → Option ℕ → Option Context → Bool
unfolding any_grants continuation_permits
owns h none ctx = false
owns h (some token) ctx = any_grants h token (continuation_permits ctx)

-- The inner loop of `PreserveDeliveryContext`.
unfoldable pub found : List ℕ → ℕ → Bool
found [] p = false
found (q ∷ qs) p = eqb p q || found qs p

-- The permits of the source that the outer loop appends.
unfoldable pub not_found : List ℕ → List ℕ → List ℕ
unfolding found
not_found replacement [] = []
not_found replacement (p ∷ ps) =
    let rest = not_found replacement ps in if found replacement p then rest else p ∷ rest

-- The result's permits, as the three returns of `PreserveDeliveryContext` leave them.
unfoldable pub merged_permits : List ℕ → List ℕ → List ℕ
unfolding not_found
merged_permits [] replacement = replacement
merged_permits (p ∷ ps) replacement = elim (not_found replacement (p ∷ ps)) [
  | [] ↦ replacement
  | q ∷ qs ↦ replacement ++ q ∷ qs
]

abbrev or_else {ℓ} : {A : Type ℓ} → Option A → Option A → Option A
or_else none b = b
or_else (some a) b = some a

unfoldable pub preserve_delivery_context : Option Context → Option Context → Context
unfolding or_background continuation_permits merged_permits delivery_settlement_from_context
    delivery_provenance_from_context
preserve_delivery_context source replacement =
    let preserved = or_background replacement in
    record {
      settlement = or_else (delivery_settlement_from_context source) preserved.settlement;
      provenance = or_else (delivery_provenance_from_context source) preserved.provenance;
      attempt = elim source [
        | none ↦ preserved.attempt
        | some ctx ↦ or_else ctx.attempt preserved.attempt
      ];
      metadata = elim source [
        | none ↦ preserved.metadata
        | some ctx ↦ or_else ctx.metadata preserved.metadata
      ];
      permits = merged_permits (continuation_permits source) preserved.permits;
    }
