-- ===== src/Schedule/Search.antt =====
-- src/schedule.rs: the loops over `day_offset`.
use pgspawn.Prelude.{
  ℕ, zero, suc, ◌+◌, ◌≤◌, ◌<◌, ◌≡◌, Bool, true, false, some, arith, Bool-cases, inl, inr,
  ℕ_discrete, sym, subst,
}
use pgspawn.Job.{Timestamp}
use pgspawn.Schedule.{Jiff, first_day}

module _ (J : Jiff) (date_at : ℕ → J.Date) (skip : J.Date → Bool) (at : J.Date → Timestamp)
    (accept : Timestamp → Bool) where
  pub record Accepts (n : ℕ) : Type 0 where
    pub kept : skip (date_at n) ≡ false
    pub accepted : accept (at (date_at n)) ≡ true

  pub record FirstAt (lo hi : ℕ) (t : Timestamp) : Type 0 where
    pub offset : ℕ
    pub from : lo ≤ offset
    pub below : offset < hi
    pub accepts : Accepts offset
    pub found : t ≡ at (date_at offset)
    pub nearest : (n : ℕ) → lo ≤ n → Accepts n → offset ≤ n

  pub FirstAt-accept : {lo hi : ℕ} {t : Timestamp} → FirstAt lo hi t → accept t ≡ true
  FirstAt-accept r = subst (λ u. accept u ≡ true) (sym r.found) r.accepts.accepted

  later_first : (lo hi : ℕ) (t : Timestamp) → FirstAt (suc lo) hi t → ¬ Accepts lo → FirstAt lo hi t
  later_first lo hi t r refused = record {
    offset = r.offset;
    from = omega (arith, r.from);
    below = r.below;
    accepts = r.accepts;
    found = r.found;
    nearest = λ n h a. elim (ℕ_discrete n lo) [
      | yes e ↦ absurd (refused (subst Accepts e a))
      | no ne ↦ r.nearest n (omega arith) a
    ];
  }

  pub first_day-FirstAt :
      (lo rounds hi : ℕ) {t : Timestamp}
      → lo + rounds ≡ hi
      → first_day J date_at skip at accept lo rounds ≡ some t
      → FirstAt lo hi t
  unfolding first_day
  first_day-FirstAt lo zero hi e p = absurd (ground arith)
  first_day-FirstAt lo (suc rounds) hi {t} e p = elim (Bool-cases (skip (date_at lo))) [
    | inl s ↦
        later_first lo hi t (first_day-FirstAt (suc lo) rounds hi (omega arith) (ground arith))
          (λ a. ground (arith, a.kept, s))
    | inr k ↦ elim (Bool-cases (accept (at (date_at lo)))) [
      | inl a ↦ record {
        offset = lo;
        from = omega arith;
        below = omega arith;
        accepts = record { kept = k; accepted = a };
        found = ground arith;
        nearest = λ n h _. h;
      }
      | inr r ↦
          later_first lo hi t (first_day-FirstAt (suc lo) rounds hi (omega arith) (ground arith))
            (λ a. ground (arith, a.accepted, r))
    ]
  ]

  first_day-some_from :
      (lo rounds : ℕ) (n : ℕ)
      → lo ≤ n
      → n < lo + rounds
      → Accepts n
      → (t : Timestamp) × (first_day J date_at skip at accept lo rounds ≡ some t)
  unfolding first_day
  first_day-some_from lo zero n l h a = absurd (omega arith)
  first_day-some_from lo (suc rounds) n l h a = elim (ℕ_discrete n lo) [
    | yes e ↦ (at (date_at lo), ground (arith, subst Accepts e a))
    | no ne ↦ elim (Bool-cases (skip (date_at lo))) [
      | inl s ↦
          let r = first_day-some_from (suc lo) rounds n (omega arith) (omega arith) a in
          (r.0, ground (arith, r.1))
      | inr k ↦ elim (Bool-cases (accept (at (date_at lo)))) [
        | inl c ↦ (at (date_at lo), ground arith)
        | inr c ↦
            let r = first_day-some_from (suc lo) rounds n (omega arith) (omega arith) a in
            (r.0, ground (arith, r.1))
      ]
    ]
  ]

  -- The search is complete: with an accepted offset in range it returns the first one.
  pub first_day-finds :
      (rounds n : ℕ)
      → n < rounds
      → Accepts n
      → (t : Timestamp) × (first_day J date_at skip at accept 0 rounds ≡ some t)
        × FirstAt 0 rounds t
  first_day-finds rounds n h a =
      let r = first_day-some_from 0 rounds n (omega arith) (omega arith) a in
      (r.0, r.1, first_day-FirstAt 0 rounds rounds (omega arith) r.1)
