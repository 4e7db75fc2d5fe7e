-- ===== src/Queue/Claim/Wait.antt =====
-- src/queue.rs: how far the wait of `next_runnable_in` reaches.
use pgspawn.Prelude.{
  ℕ, ◌+◌, ◌*◌, ◌/◌, ◌≡◌, refl, ◌⊎◌, inl, inr, true, Bool, ◌&&◌, none, some, List, [], ◌∷◌, String,
  All, All-map, any_by, filter_by, Option-cases, Bool-cases, arith, subst, sym,
}
use pgspawn.Prelude.Int.{
  ℤ, pos, negsuc, ◌+ℤ◌, ◌-ℤ◌, ◌≤ℤ◌, ◌<ℤ◌, leb_ℤ, ltb_ℤ, +ℤ_parts, -ℤ_parts, pos_part, neg_part,
}
use pgspawn.Job.{Job, Timestamp}
use pgspawn.Table.{Db, is_queued}
use pgspawn.Queue.Claim.{
  named_in, queue_free, min_run_at, ceil_millis, from_millis, next_runnable_in,
}

module _ {Value : Type 0} where
  -- The jobs that could be claimed now or later.
  abbrev pub waits_for : List String → List (Job Value) → Job Value → Bool
  waits_for names rows j = is_queued j.status && named_in names j && queue_free rows j

  -- `m` is the earliest time of the jobs.
  abbrev pub Earliest : Timestamp → List (Job Value) → Type 0
  Earliest m js = All (λ j. m ≤ℤ j.run_at) js × (any_by (λ j. leb_ℤ j.run_at m) js ≡ true)

  min_run_at-none : (js : List (Job Value)) → min_run_at js ≡ none → js ≡ []
  unfolding min_run_at
  min_run_at-none [] e = refl
  min_run_at-none (j ∷ js) e = elim (Option-cases (min_run_at js)) [
    | inl n ↦ absurd (ground (arith, n))
    | inr (t, s) ↦ absurd (ground (arith, s))
  ]

  min_run_at-Earliest :
      (js : List (Job Value)) {m : Timestamp} → min_run_at js ≡ some m → Earliest m js
  unfolding min_run_at
  min_run_at-Earliest [] e = absurd (ground arith)
  min_run_at-Earliest (j ∷ js) {m} e = elim (Option-cases (min_run_at js)) [
    | inl n ↦
        subst (λ m. Earliest m (j ∷ js)) {x = j.run_at} {y = m} (ground (arith, n))
          (subst (λ js. Earliest j.run_at (j ∷ js)) (sym (min_run_at-none js n))
            ((omega arith, tt), ground arith))
    | inr (t, s) ↦
        let rest = min_run_at-Earliest js {m = t} s in
        elim (Bool-cases (ltb_ℤ t j.run_at)) [
          | inl lt ↦
              subst (λ m. Earliest m (j ∷ js)) {x = t} {y = m} (ground (arith, s, lt))
                ((ground (arith, lt), rest.0), ground (arith, rest.1))
          | inr ge ↦
              subst (λ m. Earliest m (j ∷ js)) {x = j.run_at} {y = m} (ground (arith, s, ge))
                ((omega arith, All-map js (λ k h. ground (arith, h, ge)) rest.0), ground arith)
        ]
  ]

-- The wait of `k` milliseconds from `now` on is enough for `m`, and is the least such number.
abbrev pub Reaches : (now m : Timestamp) (k : ℕ) → Type 0
Reaches now m k =
    (m ≤ℤ now +ℤ pos (k * 1000)) × ((k ≡ 0) ⊎ (now +ℤ pos (k * 1000) <ℤ m +ℤ pos 1000))

parts_pos : (n : ℕ) (x : ℤ) → pos n ≡ x → (pos_part x ≡ n) × (neg_part x ≡ 0)
parts_pos n x e = subst (λ y. (pos_part y ≡ n) × (neg_part y ≡ 0)) e (refl, refl)

parts_neg : (n : ℕ) (x : ℤ) → negsuc n ≡ x → (pos_part x ≡ 0) × (neg_part x ≡ n + 1)
parts_neg n x e = subst (λ y. (pos_part y ≡ 0) × (neg_part y ≡ n + 1)) e (refl, omega arith)

ceil_millis-Reaches : (now m d : Timestamp) → d ≡ m -ℤ now → Reaches now m (ceil_millis d)
ceil_millis-Reaches now m (pos n) e =
    let parts = parts_pos n (m -ℤ now) e in
    let difference = -ℤ_parts m now in
    let target = +ℤ_parts now (pos ((n + 999) / 1000 * 1000)) in
    let late = +ℤ_parts m (pos 1000) in
    (omega (arith, parts, difference, target), inr (omega (arith, parts, difference, target, late)))
ceil_millis-Reaches now m (negsuc n) e =
    let parts = parts_neg n (m -ℤ now) e in
    let difference = -ℤ_parts m now in
    let target = +ℤ_parts now (pos (0 * 1000)) in
    (omega (arith, parts, difference, target), inl refl)

module _ {Value : Type 0} where
  -- There is no wait exactly when no job of the given names is queued with its queue free. Otherwise the
  -- wait is the least number of milliseconds that reaches the earliest time of such a job, 0 if that has
  -- passed: it never ends before that time, and never a millisecond after.
  pub next_runnable_in-Reaches :
      (now : Timestamp) (names : List String) (db : Db Value)
      → let waiting = filter_by (waits_for names db.jobs) db.jobs in
        ((waiting ≡ []) × (next_runnable_in now names db ≡ none))
        ⊎ ((m : Timestamp) × Earliest m waiting
            × ((k : ℕ) × (next_runnable_in now names db ≡ some (from_millis k)) × Reaches now m k))
  unfolding next_runnable_in
  next_runnable_in-Reaches now names db =
      let waiting = filter_by (waits_for names db.jobs) db.jobs in
      elim (Option-cases (min_run_at waiting)) [
        | inl n ↦ inl (min_run_at-none waiting n, ground (arith, n))
        | inr (m, s) ↦ inr (
          m,
          min_run_at-Earliest waiting s,
          (ceil_millis (m -ℤ now), ground (arith, s), ceil_millis-Reaches now m (m -ℤ now) refl),
        )
      ]
