-- ===== src/Queue/Claim/Order.antt =====
-- src/queue.rs: the ORDER BY of a claim, and the first entry of the sorted candidates.
use pgspawn.Prelude.{
  ◌≡◌, refl, true, false, List, [], ◌∷◌, All, All-map, arith, if◌then◌else◌, Bool-cases, inl, inr,
  Option-cases, subst, sym, Option, none, some, ◌⊎◌,
}
use pgspawn.Prelude.Int.{ltb_ℤ, ◌<ℤ◌, ◌≤ℤ◌, ltb_ℤ→lt, ltb_ℤ→le}
use pgspawn.Job.{Job}
use pgspawn.Queue.Claim.{before, place, in_order}

module _ {Value : Type 0} where
  before_irrefl : (j : Job Value) → before j j ≡ false
  unfolding before
  before_irrefl j = ground arith

  before_asym : (a b : Job Value) → before a b ≡ true → before b a ≡ false
  unfolding before
  before_asym a b h = ground arith

  before_negtrans :
      (a b c : Job Value) → before a b ≡ false → before b c ≡ false → before a c ≡ false
  unfolding before
  before_negtrans a b c h g = ground arith

  place-All {κ} :
      (P : Job Value → Type κ) (j : Job Value) (js : List (Job Value))
      → P j
      → All P js
      → All P (place j js)
  unfolding place
  place-All P j [] h a = (h, a)
  place-All P j (k ∷ ks) h a = ground (arith, place-All P j ks h a.1)

  pub in_order-All {κ} :
      (P : Job Value → Type κ) (js : List (Job Value)) → All P js → All P (in_order js)
  unfolding in_order
  in_order-All P [] h = h
  in_order-All P (j ∷ js) h = place-All P j (in_order js) h.0 (in_order-All P js h.1)

  -- No job of the list precedes `j`.
  abbrev pub NonePrecedes : Job Value → List (Job Value) → Type 0
  NonePrecedes j = All (λ k. before k j ≡ false)

  abbrev pub head? : List (Job Value) → Option (Job Value)
  head? [] = none
  head? (j ∷ js) = some j

  head-place :
      (j : Job Value) (js : List (Job Value))
      → head? (place j js)
        ≡ elim (head? js) [ none ↦ some j | some k ↦ some (if before k j then k else j) ]
  unfolding place
  head-place j [] = refl
  head-place j (k ∷ ks) = ground arith

  pub head-none : (js : List (Job Value)) → head? (in_order js) ≡ none → js ≡ []
  unfolding in_order
  head-none [] e = refl
  head-none (j ∷ js) e = elim (Option-cases (head? (in_order js))) [
    | inl n ↦ absurd (ground (arith, head-place j (in_order js), n))
    | inr (h, s) ↦ absurd (ground (arith, head-place j (in_order js), s))
  ]

  pub head-NonePrecedes :
      (j : Job Value) (js : List (Job Value)) → head? (in_order js) ≡ some j → NonePrecedes j js
  unfolding in_order
  head-NonePrecedes j [] e = tt
  head-NonePrecedes j (x ∷ xs) e = elim (Option-cases (head? (in_order xs))) [
    | inl n ↦
        subst (λ i. NonePrecedes i (x ∷ xs)) {x = x} {y = j}
          (ground (arith, head-place x (in_order xs), n))
          (before_irrefl x, subst (NonePrecedes x) (sym (head-none xs n)) tt)
    | inr (h, s) ↦ elim (Bool-cases (before h x)) [
      | inl t ↦
          subst (λ i. NonePrecedes i (x ∷ xs)) {x = h} {y = j}
            (ground (arith, head-place x (in_order xs), s, t))
            (before_asym h x t, head-NonePrecedes h xs s)
      | inr t ↦
          subst (λ i. NonePrecedes i (x ∷ xs)) {x = x} {y = j}
            (ground (arith, head-place x (in_order xs), s, t))
            (
              before_irrefl x,
              All-map xs (λ k f. before_negtrans k h x f t) (head-NonePrecedes h xs s),
            )
    ]
  ]

  -- `j` comes no later than `k` by priority, then run_at, then created_at.
  abbrev pub IsNoLater : Job Value → Job Value → Type 0
  IsNoLater j k =
      (j.priority <ℤ k.priority)
      ⊎ ((j.priority ≤ℤ k.priority)
          × ((j.run_at <ℤ k.run_at) ⊎ ((j.run_at ≤ℤ k.run_at) × (j.created_at ≤ℤ k.created_at))))

  before-IsNoLater : (j k : Job Value) → before k j ≡ false → IsNoLater j k
  unfolding before
  before-IsNoLater j k h = elim (Bool-cases (ltb_ℤ j.priority k.priority)) [
    | inl p ↦ inl (ltb_ℤ→lt j.priority k.priority p)
    | inr p ↦ elim (Bool-cases (ltb_ℤ j.run_at k.run_at)) [
      | inl r ↦
          inr (ltb_ℤ→le k.priority j.priority (ground arith), inl (ltb_ℤ→lt j.run_at k.run_at r))
      | inr r ↦ inr (
        ltb_ℤ→le k.priority j.priority (ground arith),
        inr (
          ltb_ℤ→le k.run_at j.run_at (ground arith),
          ltb_ℤ→le k.created_at j.created_at (ground arith),
        ),
      )
    ]
  ]

  pub NonePrecedes-IsNoLater :
      (j : Job Value) (ks : List (Job Value)) → NonePrecedes j ks → All (IsNoLater j) ks
  NonePrecedes-IsNoLater j ks h = All-map ks (λ k b. before-IsNoLater j k b) h
