-- ===== src/Queue/Read/Recent.antt =====
-- src/queue.rs: `recent`, the newest jobs first.
use pgspawn.Prelude.{
  ℕ, zero, suc, ◌≡◌, refl, Bool, List, [], ◌∷◌, ◌++◌, ok, arith, length, count_by, All, All-map,
  Pairwise, Bool-cases, inl, inr, min, ap, ◌∙◌, sym, subst,
}
use pgspawn.Prelude.Int.{pos, ltb_ℤ, ◌≤ℤ◌, ltb_ℤ→le}
use pgspawn.Job.{Job}
use pgspawn.Table.{Db}
use pgspawn.Queue.Read.{put, newest_first, take, collect, recent}
use pgspawn.Queue.Read.Rows.{into_job-row_of}

module _ {Value : Type 0} where
  collect-ok : (js : List (Job Value)) → collect js ≡ ok js
  unfolding collect
  collect-ok [] = refl
  collect-ok (j ∷ js) = ground (arith, into_job-row_of j, collect-ok js)

  abbrev pub IsNewer : Job Value → Job Value → Type 0
  IsNewer j k = k.created_at ≤ℤ j.created_at

  put-All :
      (P : Job Value → Type 0) (j : Job Value) (js : List (Job Value))
      → P j
      → All P js
      → All P (put j js)
  unfolding put
  put-All P j [] h a = (h, a)
  put-All P j (k ∷ ks) h a = ground (arith, put-All P j ks h a.1)

  put-Pairwise :
      (j : Job Value) (js : List (Job Value)) → Pairwise IsNewer js → Pairwise IsNewer (put j js)
  unfolding put
  put-Pairwise j [] s = (tt, tt)
  put-Pairwise j (k ∷ ks) s = elim (Bool-cases (ltb_ℤ j.created_at k.created_at)) [
    | inl lt ↦
        rw (lt, put) (put-All (IsNewer k) j ks (ground (arith, lt)) s.0, put-Pairwise j ks s.1)
    | inr ge ↦
        let newer = ltb_ℤ→le j.created_at k.created_at ge in
        rw (ge, put) ((newer, All-map ks (λ i h. omega (arith, h, newer)) s.0), s)
  ]

  newest_first-Pairwise : (js : List (Job Value)) → Pairwise IsNewer (newest_first js)
  unfolding newest_first
  newest_first-Pairwise [] = tt
  newest_first-Pairwise (j ∷ js) = put-Pairwise j (newest_first js) (newest_first-Pairwise js)

  count_by-put :
      (p : Job Value → Bool) (j : Job Value) (js : List (Job Value))
      → count_by p (put j js) ≡ count_by p (j ∷ js)
  unfolding put
  count_by-put p j [] = refl
  count_by-put p j (k ∷ ks) = ground (arith, count_by-put p j ks)

  count_by-newest_first :
      (p : Job Value → Bool) (js : List (Job Value)) → count_by p (newest_first js) ≡ count_by p js
  unfolding newest_first
  count_by-newest_first p [] = refl
  count_by-newest_first p (j ∷ js) =
      ground (arith, count_by-put p j (newest_first js), count_by-newest_first p js)

  drop : ℕ → List (Job Value) → List (Job Value)
  drop zero js = js
  drop (suc n) [] = []
  drop (suc n) (j ∷ js) = drop n js

  take-drop : (n : ℕ) (js : List (Job Value)) → take n js ++ drop n js ≡ js
  unfolding drop
  take-drop zero js = refl
  take-drop (suc n) [] = refl
  take-drop (suc n) (j ∷ js) = ground (arith, take-drop n js)

  length-put : (j : Job Value) (js : List (Job Value)) → length (put j js) ≡ suc (length js)
  unfolding put
  length-put j [] = refl
  length-put j (k ∷ ks) = ground (arith, length-put j ks)

  length-newest_first : (js : List (Job Value)) → length (newest_first js) ≡ length js
  unfolding newest_first
  length-newest_first [] = refl
  length-newest_first (j ∷ js) =
      ground (arith, length-put j (newest_first js), length-newest_first js)

  length-take : (n : ℕ) (js : List (Job Value)) → length (take n js) ≡ min n (length js)
  length-take zero js = omega arith
  length-take (suc n) [] = omega arith
  length-take (suc n) (j ∷ js) = omega (arith, length-take n js)

  -- With a limit n, recent returns the n newest jobs, or all if there are fewer: its result and some
  -- rest together hold the jobs of the table, each as often, and go from the newest to the oldest.
  pub recent-newest :
      (n : ℕ) (db : Db Value)
      → (js rest : List (Job Value)) × (recent (pos n) db ≡ ok js)
        × (length js ≡ min n (length db.jobs))
        × Pairwise IsNewer (js ++ rest)
        × ((p : Job Value → Bool) → count_by p (js ++ rest) ≡ count_by p db.jobs)
  unfolding recent
  recent-newest n db =
      let all = newest_first db.jobs in
      (
        take n all,
        drop n all,
        collect-ok (take n all),
        length-take n all ∙ ap (min n) (length-newest_first db.jobs),
        subst (Pairwise IsNewer) (sym (take-drop n all)) (newest_first-Pairwise db.jobs),
        λ p. ap (count_by p) (take-drop n all) ∙ count_by-newest_first p db.jobs,
      )
