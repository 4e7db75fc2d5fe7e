-- ===== src/Table/Lookup.antt =====
-- Rows by id, and what an UPDATE of the row under one id does to them.
use pgspawn.Prelude.{
  false, ◌==◌, ◌&&◌, ◌≡◌, refl, inl, inr, Bool, Option, none, some, List, [], ◌∷◌, All, Pairwise,
  arith, if◌then◌else◌, Bool-cases, find_by, count_by, any_by, All-zip, All-map, All-find_by, subst,
  ◌∙◌, sym, true,
}
use pgspawn.Job.{Uuid, Job}
use pgspawn.Table.{clash_key, clash_queue, Db, update_rows}
use pgspawn.Table.Valid.{Compatible}
use pgspawn.Table.Checked.{clash_key_comm, clash_queue_comm}

module _ {Value : Type 0} where
  -- Two rows under different ids do not clash.
  pub record IsApart (j s : Job Value) : Type 0 where
    pub key_apart : (j.id == s.id) ≡ false → clash_key j s ≡ false
    pub queue_apart : (j.id == s.id) ≡ false → clash_queue j s ≡ false

  abbrev pub by_id : Uuid → Job Value → Bool
  by_id id j = j.id == id

  abbrev pub find_id : Uuid → Db Value → Option (Job Value)
  find_id id db = find_by (by_id id) db.jobs

  pub find_by-id :
      (k : Uuid) (rs : List (Job Value)) {r : Job Value} → find_by (by_id k) rs ≡ some r → r.id ≡ k
  find_by-id k [] e = absurd (ground arith)
  find_by-id k (x ∷ rs) {r} e = ground (arith, find_by-id k rs {r = r})

  module _ (p : Job Value → Bool) (f : Job Value → Job Value) where
    pub update_rows_none : (rs : List (Job Value)) → count_by p rs ≡ 0 → update_rows p f rs ≡ rs
    unfolding update_rows
    update_rows_none [] e = refl
    update_rows_none (r ∷ rs) e = ground (arith, update_rows_none rs)

    module _ (id_kept : (r : Job Value) → (f r).id ≡ r.id) where
      pub find_by-update_rows :
          (k : Uuid) (rs : List (Job Value))
          → find_by (by_id k) (update_rows p f rs)
            ≡ elim (find_by (by_id k) rs) [ none ↦ none | some r ↦ some (if p r then f r else r) ]
      unfolding update_rows
      find_by-update_rows k [] = refl
      find_by-update_rows k (r ∷ rs) = ground (arith, id_kept r, find_by-update_rows k rs)

  module _ (id : Uuid) (q : Job Value → Bool) where
    abbrev pub matches : Job Value → Bool
    matches j = j.id == id && q j

    count_elsewhere :
        (r : Job Value) (rs : List (Job Value))
        → All (Compatible r) rs
        → r.id ≡ id
        → count_by matches rs ≡ 0
    count_elsewhere r [] c e = refl
    count_elsewhere r (s ∷ rs) c e =
        let apart = c.0.ids in ground (arith, count_elsewhere r rs c.1 e)

    -- Ids are distinct, so at most the row that is found matches.
    pub count_by-matches :
        (rs : List (Job Value))
        → Pairwise Compatible rs
        → count_by matches rs
          ≡ elim (find_by (by_id id) rs) [ none ↦ 0 | some j ↦ if q j then 1 else 0 ]
    count_by-matches [] c = refl
    count_by-matches (r ∷ rs) c = elim (Bool-cases (r.id == id)) [
      | inl e ↦ ground (arith, count_elsewhere r rs c.0 (ground arith))
      | inr e ↦ ground (arith, count_by-matches rs c.1)
    ]

    any_elsewhere :
        (g : Job Value → Bool) (r : Job Value) (rs : List (Job Value))
        → All (Compatible r) rs
        → r.id ≡ id
        → any_by (λ s. matches s && g s) rs ≡ false
    any_elsewhere g r [] c e = refl
    any_elsewhere g r (s ∷ rs) c e =
        let apart = c.0.ids in ground (arith, any_elsewhere g r rs c.1 e)

    pub any_by-matches :
        (g : Job Value → Bool) (rs : List (Job Value))
        → Pairwise Compatible rs
        → any_by (λ s. matches s && g s) rs
          ≡ elim (find_by (by_id id) rs) [ none ↦ false | some j ↦ q j && g j ]
    any_by-matches g [] c = refl
    any_by-matches g (r ∷ rs) c = elim (Bool-cases (r.id == id)) [
      | inl e ↦ ground (arith, any_elsewhere g r rs c.0 (ground arith))
      | inr e ↦ ground (arith, any_by-matches g rs c.1)
    ]

  and_true :
      (id : Uuid) (g : Job Value → Bool) (rs : List (Job Value))
      → any_by (λ s. matches id (λ r. true) s && g s) rs ≡ any_by (λ s. by_id id s && g s) rs
  and_true id g [] = refl
  and_true id g (r ∷ rs) = ground (arith, and_true id g rs)

  pub any_by-id :
      (id : Uuid) (g : Job Value → Bool) (rs : List (Job Value))
      → Pairwise Compatible rs
      → any_by (λ s. by_id id s && g s) rs
        ≡ elim (find_by (by_id id) rs) [ none ↦ false | some j ↦ g j ]
  any_by-id id g rs c = sym (and_true id g rs) ∙ any_by-matches id (λ r. true) g rs c

  -- Every row is the one that its id leads to.
  pub rows_found :
      (rs : List (Job Value))
      → Pairwise Compatible rs
      → All (λ r. find_by (by_id r.id) rs ≡ some r) rs
  rows_found [] c = tt
  rows_found (r ∷ rs) c = (
    ground arith,
    All-zip rs (λ s f g. let apart = f.ids in ground (arith, g)) c.0 (rows_found rs c.1),
  )

  -- A row is compatible with every row under another id.
  pub found-IsApart :
      (k : Uuid) (rs : List (Job Value)) {j : Job Value}
      → Pairwise Compatible rs
      → find_by (by_id k) rs ≡ some j
      → All (λ s. IsApart j s) rs
  found-IsApart k [] c e = tt
  found-IsApart k (r ∷ rs) {j} c e = elim (Bool-cases (r.id == k)) [
    | inl h ↦
        subst (λ i. All (λ s. IsApart i s) (r ∷ rs)) {x = r} {y = j} (ground (arith, h))
          (
            record {
              key_apart = λ n. absurd (ground (arith, n));
              queue_apart = λ n. absurd (ground (arith, n));
            },
            All-map rs (λ s f. record { key_apart = λ n. f.keys; queue_apart = λ n. f.queues }) c.0,
          )
    | inr h ↦
        let rest = found-IsApart k rs {j = j} c.1 (ground (arith, h)) in
        let apart = All-find_by (Compatible r) (by_id k) rs {a = j} c.0 (ground (arith, h)) in
        (
          record {
            key_apart = λ n. clash_key_comm j r ∙ apart.keys;
            queue_apart = λ n. clash_queue_comm j r ∙ apart.queues;
          },
          rest,
        )
  ]
