-- ===== src/Worker/Reports.antt =====
-- src/worker.rs: which runs the periodic summaries report.
use pgspawn.Prelude.{
  ◌≡◌, refl, subst, ◌⊎◌, inl, inr, true, false, String, text_eq, eq_iff, [], ◌∷◌, All, Pairwise,
  arith, Bool-cases,
}
use pgspawn.Worker.Summary.{
  Summaries, default_summary, summary_of, is_reported, drain_job_summaries,
}

-- The map has one entry to a name.
abbrev pub AreDistinct : Summaries → Type 0
AreDistinct ss = Pairwise (λ a b. text_eq a.0 b.0 ≡ false) ss

-- A name without an entry has the default summary, before and after.
unlisted :
    (name : String) (ss : Summaries)
    → All (λ a. text_eq name a.0 ≡ false) ss
    → (summary_of name (drain_job_summaries ss).0 ≡ default_summary)
      × (summary_of name (drain_job_summaries ss).1 ≡ default_summary)
unfolding summary_of drain_job_summaries
unlisted name [] h = (refl, refl)
unlisted name ((n, s) ∷ rest) h =
    let others = unlisted name rest h.1 in
    (
      ground (arith, others.0, h.0, eq_iff n name, eq_iff name n),
      ground (arith, others.1, h.0, eq_iff n name, eq_iff name n),
    )

same_name :
    (m n : String) (ss : Summaries)
    → text_eq m n ≡ true
    → All (λ a. text_eq m a.0 ≡ false) ss
    → All (λ a. text_eq n a.0 ≡ false) ss
same_name m n ss h a = subst (λ x. All (λ a. text_eq x a.0 ≡ false) ss) ((eq_iff m n).0 h) a

-- A report has a name with its whole summary, and the next window begins with the runs that still go on,
-- if a run has started since the last report or still goes on. Otherwise the report leaves the name out, and
-- the next window begins empty: what the summary had counted of ended runs is told in no report.
pub drain_job_summaries-reports :
    (name : String) (ss : Summaries)
    → AreDistinct ss
    → let before = summary_of name ss in
      let reported = summary_of name (drain_job_summaries ss).0 in
      let left = summary_of name (drain_job_summaries ss).1 in
      ((is_reported before ≡ true)
        × (reported ≡ before)
        × (left ≡ record default_summary { running = before.running }))
      ⊎ ((is_reported before ≡ false) × (reported ≡ default_summary) × (left ≡ default_summary))
unfolding summary_of drain_job_summaries
drain_job_summaries-reports name [] h = inr (refl, refl, refl)
drain_job_summaries-reports name ((n, s) ∷ rest) h = elim (Bool-cases (text_eq n name)) [
  | inr other ↦ elim (drain_job_summaries-reports name rest h.1) [
    | inl (r, a, b) ↦
        inl (ground (arith, r, other), ground (arith, a, other), ground (arith, b, other))
    | inr (r, a, b) ↦
        inr (ground (arith, r, other), ground (arith, a, other), ground (arith, b, other))
  ]
  | inl this ↦
      let others = unlisted name rest (same_name n name rest this h.0) in
      elim (Bool-cases (is_reported s)) [
        | inl r ↦ inl (ground (arith, r, this), ground (arith, r, this), ground (arith, r, this))
        | inr r ↦
            inr
              (ground (arith, r, this), ground (arith, r, this, others.0), ground (arith, r, this))
      ]
]
