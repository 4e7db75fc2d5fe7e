-- ===== src/Worker/Claims/Idle.antt =====
-- src/worker.rs: how long a claim loop sleeps while there is a job that it could claim.
use pgspawn.Prelude.{
  ℕ, ◌==◌, ◌≡◌, ◌≤◌, refl, sym, subst, ap, ◌∙◌, ◌⊎◌, inl, inr, Bool, true, false, ◌&&◌, some,
  String, List, [], ◌∷◌, arith, if◌then◌else◌, Bool-cases, All, any_by, find_by, filter_by, ok,
}
use pgspawn.Prelude.Int.{pos, ◌+ℤ◌, ◌≤ℤ◌, ◌<ℤ◌, leb_ℤ, leb_ℤ→le}
use pgspawn.Job.{Timestamp, StdDuration, Job, Uuid}
use pgspawn.Table.{Db}
use pgspawn.Table.Lookup.{find_id, by_id, rows_found}
use pgspawn.Table.Valid.{IsValid}
use pgspawn.Queue.Claim.{can_claim, next_runnable_in}
use pgspawn.Queue.Claim.Wait.{waits_for, Earliest, next_runnable_in-Reaches}
use pgspawn.Queue.Notify.Claimable.{IsCalm-claimable, any_among}
use pgspawn.Worker.Config.{WorkerConfig}
use pgspawn.Worker.Loops.{claim_wait}
use pgspawn.Worker.Claims.{System, checking, waiting, sleep_until}
use pgspawn.Worker.Claims.Moves.{Run}
use pgspawn.Worker.Claims.Sleep.{sleep_short, at_once, wait_polls}
use pgspawn.Worker.Claims.Since.{stirred, CalmSince, SleepsFor}
use pgspawn.Worker.Claims.Quiet.{Run-Quiet}

module _ {ℓ κ} {A : Type ℓ} (P : A → Type κ) (p : A → Bool) (r : A) (rs : List A) where
  first : p r ≡ true → All P (filter_by p (r ∷ rs)) → P r
  first t h =
      let both : All P (r ∷ filter_by p rs) =
        subst (λ b. All P (if b then r ∷ filter_by p rs else filter_by p rs)) t h in
      both.0

  rest : All P (filter_by p (r ∷ rs)) → All P (filter_by p rs)
  rest h = elim (Bool-cases (p r)) [
    | inl t ↦
        let both : All P (r ∷ filter_by p rs) =
          subst (λ b. All P (if b then r ∷ filter_by p rs else filter_by p rs)) t h in
        both.1
    | inr t ↦ subst (λ b. All P (if b then r ∷ filter_by p rs else filter_by p rs)) t h
  ]

module _ {Value : Type 0} where
  claimable_waits :
      (names : List String) (t : Timestamp) (rows : List (Job Value)) (j : Job Value)
      → can_claim names t rows j ≡ true
      → (waits_for names rows j ≡ true) × (j.run_at ≤ℤ t)
  unfolding can_claim
  claimable_waits names t rows j h = (ground arith, leb_ℤ→le j.run_at t (ground arith))

  waits_claimable :
      (names : List String) (t : Timestamp) (rows : List (Job Value)) (j : Job Value)
      → waits_for names rows j ≡ true
      → leb_ℤ j.run_at t ≡ true
      → can_claim names t rows j ≡ true
  unfolding can_claim
  waits_claimable names t rows j h e = ground arith

  -- A job that could be claimed at the time of the look, if the wait says so.
  abbrev pub CouldClaim : List String → Timestamp → Db Value → Type 0
  CouldClaim names t db =
      (k : Uuid) × (j : Job Value) × (find_id k db ≡ some j) × (can_claim names t db.jobs j ≡ true)

  filtered_All :
      (P : Job Value → Type 0) (p : Job Value → Bool) (k : Uuid) (rs : List (Job Value))
      {j : Job Value}
      → All P (filter_by p rs)
      → find_by (by_id k) rs ≡ some j
      → p j ≡ true
      → P j
  filtered_All P p k [] h e t = absurd (ground (arith, e))
  filtered_All P p k (r ∷ rs) {j} h e t = elim (Bool-cases (r.id == k)) [
    | inl same ↦
        let this : r ≡ j = ground (arith, e, same) in
        subst P this (first P p r rs (subst (λ x. p x ≡ true) (sym this) t) h)
    | inr other ↦ filtered_All P p k rs (rest P p r rs h) (ground (arith, e, other)) t
  ]

  any_filtered :
      (p q : Job Value → Bool) (rs : List (Job Value))
      → any_by q (filter_by p rs) ≡ any_by (λ j. p j && q j) rs
  any_filtered p q [] = refl
  any_filtered p q (r ∷ rs) = ground (arith, any_filtered p q rs)

  due_at_look :
      (names : List String) (i m : Timestamp) (d : Db Value)
      → IsValid d
      → Earliest m (filter_by (waits_for names d.jobs) d.jobs)
      → m ≤ℤ i
      → CouldClaim names i d
  due_at_look names i m d v earliest le =
      let waits = waits_for names d.jobs in
      let (j, found, passes) =
        any_among (λ j. waits j && leb_ℤ j.run_at m) d.jobs d.jobs (rows_found d.jobs v.pairs)
          (sym (any_filtered waits (λ j. leb_ℤ j.run_at m) d.jobs) ∙ earliest.1) in
      (
        j.id,
        j,
        found,
        waits_claimable names i d.jobs j (ground (arith, passes)) (ground (arith, passes, le)),
      )

  looked-idle :
      (config : WorkerConfig) (names : List String) (i t : Timestamp) (duration : StdDuration)
      (d : Db Value) (k : Uuid) (old : Job Value)
      → IsValid d
      → duration ≡ claim_wait (ok (next_runnable_in i names d)) config
      → find_id k d ≡ some old
      → can_claim names t d.jobs old ≡ true
      → CouldClaim names i d ⊎ (sleep_until i duration <ℤ t +ℤ pos 1000)
  looked-idle config names i t duration d k old v sleeps found could =
      let waits = waits_for names d.jobs in
      let (waiting_old, due_old) = claimable_waits names t d.jobs old could in
      elim (next_runnable_in-Reaches i names d) [
        | inl (nobody, _) ↦
            filtered_All (λ j. CouldClaim names i d ⊎ (sleep_until i duration <ℤ t +ℤ pos 1000))
              waits k d.jobs {j = old}
              (subst (All (λ j. CouldClaim names i d ⊎ (sleep_until i duration <ℤ t +ℤ pos 1000)))
                (sym nobody) tt)
              found waiting_old
        | inr (m, earliest, (n, answer, (reached, least))) ↦
            let early : m ≤ℤ old.run_at =
              filtered_All (λ j. m ≤ℤ j.run_at) waits k d.jobs {j = old} earliest.0 found
                waiting_old in
            elim (Bool-cases (n == 0)) [
              | inl zero_n ↦ inl (due_at_look names i m d v earliest (at_once i m n zero_n reached))
              | inr some_n ↦ elim least [
                | inl zero_n ↦ absurd (ground (arith, zero_n, some_n))
                | inr near ↦ inr (
                    sleep_short i m t n config.poll_interval duration some_n near
                      (omega (arith, early, due_old))
                      (sleeps ∙ ap (λ r. claim_wait (ok r) config) answer))
              ]
            ]
      ]

module _ (TimeZone : Type 0) (exp : ℕ → ℕ) (config : WorkerConfig) (names : List String)
    (lock_owner : String) {Value : Type 0} where
  -- A claim loop that sleeps does not sleep past a job. From a valid table on, in whatever order the
  -- loop, its worker's listener, the database and the other clients act: while the loop sleeps after a
  -- look at the table, and since it was armed it has not been woken, no notification is on its way and none
  -- was lost with a connection, then the sleep is no longer than the poll interval, and for any job that could be
  -- claimed at a time t, either the tables that the loop's claim read held a job that could be claimed at the
  -- time of the look, or the sleep, counted from the look, ends less than a millisecond after t.
  pub Run-idle :
      {s₀ s : System Value} {seen d : Db Value} (i from t : Timestamp) (duration : StdDuration)
      (k : Uuid) (j : Job Value)
      → IsValid s₀.db
      → s₀.phase ≡ checking
      → Run TimeZone exp config names lock_owner s₀ s
      → s.phase ≡ waiting seen (some (i, d)) from duration
      → stirred s ≡ false
      → find_id k s.db ≡ some j
      → can_claim names t s.db.jobs j ≡ true
      → (duration ≤ config.poll_interval)
        × (CouldClaim names i seen ⊎ (sleep_until i duration <ℤ t +ℤ pos 1000))
  Run-idle {s₀ = s₀} {s = s} {seen = seen} {d = d} i from t duration k j v start run sleeping still
        found could =
      let q = Run-Quiet config names TimeZone exp lock_owner run (record {
        valid = v;
        calm = λ z. subst (λ p. CalmSince p s₀.db) (sym start) tt;
        sleeps = subst (SleepsFor config names) (sym start) tt;
      }) in
      let (since_claim, since_look) = subst (λ p. CalmSince p s.db) sleeping (q.calm still) in
      let slept = subst (SleepsFor config names) sleeping q.sleeps in
      let (old, at_k, could_then) =
        IsCalm-claimable d s.db since_look.0 since_look.1 names t k j found could in
      (
        subst (λ w. w ≤ config.poll_interval) (sym slept)
            (wait_polls (next_runnable_in i names d) config.poll_interval),
        elim (looked-idle config names i t duration d k old since_look.0 slept at_k could_then) [
          | inr short ↦ inr short
          | inl (k₁, j₁, found₁, could₁) ↦
              let (old₁, at_k₁, then₁) =
                IsCalm-claimable seen d since_claim.0 since_claim.1 names i k₁ j₁ found₁ could₁ in
              inl (k₁, old₁, at_k₁, then₁)
        ],
      )
