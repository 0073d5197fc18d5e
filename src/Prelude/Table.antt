-- ===== src/Prelude/Table.antt =====
-- A Go map as the function from keys to entries. A `range` over a map visits every key once, in
-- no order: an update of every entry is a function of the key.
use mathlib.Core.Path.{◌≡◌, fun_ext}
use mathlib.Core.Logic.{◌⊎◌, inl, inr}
use mathlib.Core.Bool.{Bool, false}
use mathlib.Core.Option.{Option, none, some}
use native.Mathlib.Omega.{arith}
use queue.Prelude.Tests.{if◌then◌else◌, Bool-cases, Option-cases}
use queue.Prelude.Equality.{Eq, beq_refl}

abbrev pub Table {ℓ κ} : Type ℓ → Type κ → Type (ℓ ⊔ κ)
Table K V = K → Option V

module _ {ℓ κ} {K : Type ℓ} {V : Type κ} where
  abbrev pub empty : Table K V
  empty k = none

  -- `m[k] = v`
  abbrev pub update : ⦃e : Eq K⦄ → Table K V → K → V → Table K V
  update ⦃e⦄ m k v j = if e.beq k j then some v else m j

  -- `delete(m, k)`
  abbrev pub remove : ⦃e : Eq K⦄ → Table K V → K → Table K V
  remove ⦃e⦄ m k j = if e.beq k j then none else m j

  -- `for k, v := range m { if test(k, v) { delete(m, k) } }`
  abbrev pub remove_if : (K → V → Bool) → Table K V → Table K V
  remove_if test m j = elim (m j) [ none ↦ none | some v ↦ if test j v then none else some v ]

module _ {ℓ κ} {K : Type ℓ} {V : Type κ} ⦃e : Eq K⦄ where
  pub update_self : (m : Table K V) (k : K) (v : V) → update m k v k ≡ some v
  update_self m k v = rw (beq_refl k)

  -- An entry of an updated map is the new one, or was there.
  pub update_cases :
      (m : Table K V) (k j : K) (v x : V)
      → update m k v j ≡ some x
      → ((k ≡ j) × (v ≡ x)) ⊎ (m j ≡ some x)
  update_cases m k j v x h = elim (Bool-cases (e.beq k j)) [
    | inl same ↦ inl ((e.beq_iff k j).0 same, ground arith)
    | inr ne ↦ inr (ground arith)
  ]

module _ {ℓ κ} {K : Type ℓ} {V : Type κ} where
  -- An entry that is left was there, and did not pass the test.
  pub remove_if_cases :
      (test : K → V → Bool) (m : Table K V) (j : K) (x : V)
      → remove_if test m j ≡ some x
      → (m j ≡ some x) × (test j x ≡ false)
  remove_if_cases test m j x h = elim (Option-cases (m j)) [
    | inl none_there ↦ absurd (ground arith)
    | inr (v, there) ↦ elim (Bool-cases (test j v)) [
      | inl passes ↦ absurd (ground arith)
      | inr fails ↦ (ground arith, ground arith)
    ]
  ]

  -- The later of two updates of an entry stands.
  pub update_twice :
      ⦃e : Eq K⦄ (m : Table K V) (k : K) (v w : V) → update (update m k v) k w ≡ update m k w
  update_twice ⦃e⦄ m k v w = fun_ext (λ j. elim (Bool-cases (e.beq k j)) [
    | inl same ↦ ground (arith, same)
    | inr other ↦ ground (arith, other)
  ])
