-- ===== src/Prelude/Lists.antt =====
-- Lists measured by native numbers, Boolean searches, and predicates on all entries or all pairs.
use Prim.Native.Nat.{ℕ, zero, suc}
use mathlib.Core.Bool.{Bool, true, false, ◌||◌}
use mathlib.Core.Path.{◌≡◌, subst}
use mathlib.Core.Logic.{inl, inr}
use mathlib.Core.List.{List, [], ◌∷◌, ◌++◌}
use mathlib.Core.Option.{Option, none, some}
use native.Mathlib.Omega.{arith}
use pgspawn.Prelude.Tests.{if◌then◌else◌, Bool-cases}

module _ {ℓ} {A : Type ℓ} where
  abbrev pub length : List A → ℕ
  length [] = 0
  length (x ∷ xs) = suc (length xs)

  abbrev pub get_elem? : List A → ℕ → Option A
  get_elem? [] i = none
  get_elem? (x ∷ xs) zero = some x
  get_elem? (x ∷ xs) (suc i) = get_elem? xs i

  abbrev pub filter_by : (A → Bool) → List A → List A
  filter_by p [] = []
  filter_by p (x ∷ xs) = let rest = filter_by p xs in if p x then x ∷ rest else rest

  abbrev pub any_by : (A → Bool) → List A → Bool
  any_by p [] = false
  any_by p (x ∷ xs) = p x || any_by p xs

  abbrev pub count_by : (A → Bool) → List A → ℕ
  count_by p [] = 0
  count_by p (x ∷ xs) = let rest = count_by p xs in if p x then suc rest else rest

  abbrev pub find_by : (A → Bool) → List A → Option A
  find_by p [] = none
  find_by p (x ∷ xs) = let rest = find_by p xs in if p x then some x else rest

module _ {ℓ κ} {A : Type ℓ} where
  abbrev pub All : (A → Type κ) → List A → Type κ
  All P [] = Unit
  All P (x ∷ xs) = P x × All P xs

  -- Every entry is related to every later one.
  abbrev pub Pairwise : (A → A → Type κ) → List A → Type κ
  Pairwise R [] = Unit
  Pairwise R (x ∷ xs) = All (R x) xs × Pairwise R xs

  pub All-append : (P : A → Type κ) (xs ys : List A) → All P xs → All P ys → All P (xs ++ ys)
  All-append P [] ys hx hy = hy
  All-append P (x ∷ xs) ys hx hy = (hx.0, All-append P xs ys hx.1 hy)

  pub All-find_by :
      (P : A → Type κ) (p : A → Bool) (xs : List A) {a : A} → All P xs → find_by p xs ≡ some a → P a
  All-find_by P p [] h e = absurd (ground arith)
  All-find_by P p (x ∷ xs) {a} h e = elim (Bool-cases (p x)) [
    | inl t ↦ subst P {x = x} (ground (arith, t)) h.0
    | inr t ↦ All-find_by P p xs h.1 (ground (arith, t))
  ]

  pub All-filter_by :
      (P : A → Type κ) (p : A → Bool) (xs : List A) → All P xs → All P (filter_by p xs)
  All-filter_by P p [] h = h
  All-filter_by P p (x ∷ xs) h = ground (arith, All-filter_by P p xs h.1)

module _ {ℓ κ ι} {A : Type ℓ} where
  pub All-map :
      {P : A → Type κ} {Q : A → Type ι} (xs : List A) → ((x : A) → P x → Q x) → All P xs → All Q xs
  All-map [] f h = tt
  All-map (x ∷ xs) f h = (f x h.0, All-map xs f h.1)

module _ {ℓ κ ι ν} {A : Type ℓ} where
  pub All-zip :
      {P : A → Type κ} {Q : A → Type ι} {R : A → Type ν} (xs : List A)
      → ((x : A) → P x → Q x → R x)
      → All P xs
      → All Q xs
      → All R xs
  All-zip [] f h k = tt
  All-zip (x ∷ xs) f h k = (f x h.0 k.0, All-zip xs f h.1 k.1)

module _ {ℓ} {A : Type ℓ} where
  pub any_by-false : (p : A → Bool) (xs : List A) → any_by p xs ≡ false → All (λ x. p x ≡ false) xs
  any_by-false p [] h = tt
  any_by-false p (x ∷ xs) h = (ground arith, any_by-false p xs (ground arith))

  pub find_by-none : (p : A → Bool) (xs : List A) → find_by p xs ≡ none → All (λ x. p x ≡ false) xs
  find_by-none p [] h = tt
  find_by-none p (x ∷ xs) h = (ground arith, find_by-none p xs (ground arith))

module _ {ℓ κ} {A : Type ℓ} where
  pub Pairwise-append_one :
      (R : A → A → Type κ) (xs : List A) (y : A)
      → Pairwise R xs
      → All (λ x. R x y) xs
      → Pairwise R (xs ++ y ∷ [])
  Pairwise-append_one R [] y h a = (tt, tt)
  Pairwise-append_one R (x ∷ xs) y h a =
      (All-append (R x) xs (y ∷ []) h.0 (a.0, tt), Pairwise-append_one R xs y h.1 a.1)

module _ {ℓ} {A : Type ℓ} (p : A → Bool) where
  pub filter_by-true : (xs : List A) → All (λ x. p x ≡ true) (filter_by p xs)
  filter_by-true [] = tt
  filter_by-true (x ∷ xs) = elim (Bool-cases (p x)) [
    | inl t ↦
        subst (All (λ x. p x ≡ true)) {x = x ∷ filter_by p xs} (ground (arith, t))
          (t, filter_by-true xs)
    | inr t ↦
        subst (All (λ x. p x ≡ true)) {x = filter_by p xs} (ground (arith, t)) (filter_by-true xs)
  ]

module _ {ℓ κ} {A : Type ℓ} (p : A → Bool) where
  -- A predicate of the entries that are left by a filter, told of the list itself.
  pub All-unfilter_by :
      (P : A → Type κ) (xs : List A) → All P (filter_by p xs) → All (λ x. p x ≡ true → P x) xs
  All-unfilter_by P [] h = tt
  All-unfilter_by P (x ∷ xs) h = elim (Bool-cases (p x)) [
    | inl t ↦
        let both =
          subst (All P) {x = filter_by p (x ∷ xs)} {y = x ∷ filter_by p xs} (ground (arith, t)) h in
        ((λ _. both.0), All-unfilter_by P xs both.1)
    | inr t ↦ (
      (λ u. absurd (ground (arith, t, u))),
      All-unfilter_by P xs
          (subst (All P) {x = filter_by p (x ∷ xs)} {y = filter_by p xs} (ground (arith, t)) h),
    )
  ]

  pub All-filter_by-where :
      (P : A → Type κ) (xs : List A) → All (λ x. p x ≡ true → P x) xs → All P (filter_by p xs)
  All-filter_by-where P [] h = tt
  All-filter_by-where P (x ∷ xs) h = elim (Bool-cases (p x)) [
    | inl t ↦
        subst (All P) {x = x ∷ filter_by p xs} (ground (arith, t))
          (h.0 t, All-filter_by-where P xs h.1)
    | inr t ↦ subst (All P) {x = filter_by p xs} (ground (arith, t)) (All-filter_by-where P xs h.1)
  ]

  pub Pairwise-filter_by :
      (R : A → A → Type κ) (xs : List A) → Pairwise R xs → Pairwise R (filter_by p xs)
  Pairwise-filter_by R [] h = tt
  Pairwise-filter_by R (x ∷ xs) h = elim (Bool-cases (p x)) [
    | inl t ↦
        subst (Pairwise R) {x = x ∷ filter_by p xs} (ground (arith, t))
          (All-filter_by (R x) p xs h.0, Pairwise-filter_by R xs h.1)
    | inr t ↦
        subst (Pairwise R) {x = filter_by p xs} (ground (arith, t)) (Pairwise-filter_by R xs h.1)
  ]

  -- In a list whose entries are related in pairs, an entry that a filter drops is related to all that
  -- it leaves.
  pub Pairwise-dropped :
      (R : A → A → Type κ) (xs : List A)
      → ((x y : A) → R x y → R y x)
      → Pairwise R xs
      → All (λ y. p y ≡ false → All (λ x. R x y) (filter_by p xs)) xs
  Pairwise-dropped R [] sym h = tt
  Pairwise-dropped R (x ∷ xs) sym h = elim (Bool-cases (p x)) [
    | inl t ↦ (
      (λ u. absurd (ground (arith, t, u))),
      All-zip xs
          (λ y r d u.
            subst (All (λ z. R z y)) {x = x ∷ filter_by p xs} {y = filter_by p (x ∷ xs)}
              (ground (arith, t)) (r, d u))
          h.0 (Pairwise-dropped R xs sym h.1),
    )
    | inr t ↦ (
      (λ u.
          subst (All (λ z. R z x)) {x = filter_by p xs} {y = filter_by p (x ∷ xs)}
            (ground (arith, t))
            (All-map (filter_by p xs) (λ y. sym x y) (All-filter_by (R x) p xs h.0))),
      All-map xs
          (λ y d u.
            subst (All (λ z. R z y)) {x = filter_by p xs} {y = filter_by p (x ∷ xs)}
              (ground (arith, t)) (d u))
          (Pairwise-dropped R xs sym h.1),
    )
  ]
