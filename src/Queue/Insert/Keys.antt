-- ===== src/Queue/Insert/Keys.antt =====
-- src/queue.rs: what an INSERT of a job does to the tables, told by ids.
use pgspawn.Prelude.{
  ◌==◌, ◌≡◌, refl, sym, subst, ◌⊎◌, inl, inr, Bool, true, false, Option, none, some, List, [], ◌∷◌,
  ◌++◌, String, arith, if◌then◌else◌, Bool-cases, Option-cases, Result-cases, ok, find_by, any_by,
  All-find_by, eq_iff, same_text, or_else,
}
use pgspawn.Prelude.Int.{pos, leb_ℤ}
use pgspawn.Job.{Uuid, Timestamp, Job, EnqueueOptions}
use pgspawn.Job.KeyMode.{JobKeyMode}
use pgspawn.Table.{Db, clash_key, touch, update_jobs}
use pgspawn.Table.Valid.{IsValid}
use pgspawn.Table.Lookup.{
  find_id, by_id, find_by-id, find_by-update_rows, rows_found, found-IsApart, IsApart,
}
use pgspawn.Queue.Insert.{proposed, on_conflict, upsert, insert_job}

same_text_trans :
    (a b c : Option String) → same_text a c ≡ true → same_text b c ≡ true → same_text a b ≡ true
same_text_trans none b c h g = absurd (ground arith)
same_text_trans (some a) none c h g = absurd (ground arith)
same_text_trans (some a) (some b) none h g = absurd (ground arith)
same_text_trans (some a) (some b) (some c) h g = ground (arith, eq_iff a c, eq_iff b c, eq_iff a b)

module _ {Value : Type 0} where
  find_by-append :
      (k : Uuid) (rs : List (Job Value)) (e : Job Value)
      → find_by (by_id k) (rs ++ e ∷ []) ≡ elim (find_by (by_id k) rs) [
        | none ↦ if e.id == k then some e else none
        | some r ↦ some r
      ]
  find_by-append k [] e = ground arith
  find_by-append k (r ∷ rs) e = ground (arith, find_by-append k rs e)

  find_by-true :
      (p : Job Value → Bool) (rs : List (Job Value)) {j : Job Value}
      → find_by p rs ≡ some j
      → p j ≡ true
  find_by-true p [] e = absurd (ground arith)
  find_by-true p (r ∷ rs) {j} e = elim (Bool-cases (p r)) [
    | inl t ↦ subst (λ i. p i ≡ true) {x = r} {y = j} (ground (arith, t)) t
    | inr t ↦ find_by-true p rs (ground (arith, t))
  ]

  not_any :
      (k : Uuid) (rs : List (Job Value)) → any_by (by_id k) rs ≡ false → find_by (by_id k) rs ≡ none
  not_any k [] h = refl
  not_any k (r ∷ rs) h = ground (arith, not_any k rs)

  -- An active row under the key of the proposed one is the only one.
  key_alone :
      (e j r : Job Value) (k : Uuid) (db : Db Value)
      → IsValid db
      → find_id j.id db ≡ some j
      → clash_key j e ≡ true
      → find_id k db ≡ some r
      → clash_key r e ≡ (k == j.id)
  key_alone e j r k db v found held at_k =
      let r_id = find_by-id k db.jobs {r = r} at_k in
      let apart =
        All-find_by (IsApart j) (by_id k) db.jobs {a = r} (found-IsApart j.id db.jobs v.pairs found)
          at_k in
      elim (Bool-cases (k == j.id)) [
        | inl same ↦ ground (arith, found, at_k, held)
        | inr other ↦
            let no_clash : clash_key j r ≡ false = apart.key_apart (ground (arith, r_id)) in
            ground (arith, no_clash, same_text_trans j.job_key r.job_key e.job_key)
      ]

  -- The second table has the row under the id, and is as the first one under every other id.
  abbrev pub Sets : Db Value → Job Value → Uuid → Db Value → Type 0
  Sets db row id db' = (k : Uuid) → find_id k db' ≡ (if k == id then some row else find_id k db)

  reset_at :
      (db : Db Value) (row : Job Value) {i id : Uuid} {d db' : Db Value}
      → i ≡ id
      → d ≡ db'
      → Sets db row i d
      → Sets db row id db'
  reset_at db row {id = id} {d = d} p q h =
      subst (Sets db row id) q (subst (λ i. Sets db row i d) p h)

  -- What an INSERT with result `id` has done.
  abbrev pub Resolves :
      Timestamp → JobKeyMode → (excluded : Job Value) → Db Value → Uuid → Db Value → Type 0
  Resolves now mode excluded db id db' =
      ((id ≡ excluded.id)
        × (any_by (λ r. clash_key r excluded) db.jobs ≡ false)
        × (find_id id db ≡ none)
        × Sets db excluded id db')
      ⊎ ((j : Job Value) × (id ≡ j.id)
          × (find_id id db ≡ some j)
          × (clash_key j excluded ≡ true)
          × Sets db (touch now (on_conflict mode excluded j)) id db')

  find_changed :
      (now : Timestamp) (mode : JobKeyMode) (e j : Job Value) (db : Db Value) (k : Uuid)
      → IsValid db
      → find_id j.id db ≡ some j
      → clash_key j e ≡ true
      → find_id k (update_jobs now (λ r. clash_key r e) (on_conflict mode e) db).0
        ≡ (if k == j.id then some (touch now (on_conflict mode e j)) else find_id k db)
  unfolding update_jobs on_conflict
  find_changed now mode e j db k v found held =
      rw
        (find_by-update_rows (λ r. clash_key r e) (λ i. touch now (on_conflict mode e i))
          (λ r. refl) k db.jobs)
        (elim (Option-cases (find_id k db)) [
          | inl none_k ↦ ground (arith, none_k, found)
          | inr (r, some_k) ↦
              ground (arith, some_k, found, key_alone e j r k db v found held some_k)
        ])

  find_appended :
      (e : Job Value) (db : Db Value) (k : Uuid)
      → any_by (by_id e.id) db.jobs ≡ false
      → find_id k (record db { jobs = db.jobs ++ e ∷ [] })
        ≡ (if k == e.id then some e else find_id k db)
  find_appended e db k fresh = rw (find_by-append k db.jobs e) (elim (Option-cases (find_id k db)) [
    | inl none_k ↦ ground (arith, none_k)
    | inr (r, some_k) ↦
        ground (arith, some_k, not_any e.id db.jobs fresh, find_by-id k db.jobs {r = r} some_k)
  ])

  none_any :
      (p : Job Value → Bool) (rs : List (Job Value)) → find_by p rs ≡ none → any_by p rs ≡ false
  none_any p [] h = refl
  none_any p (r ∷ rs) h = ground (arith, none_any p rs)

  pub upsert-Resolves :
      (now : Timestamp) (mode : JobKeyMode) (excluded : Job Value) (db : Db Value)
      → IsValid db
      → {id : Uuid} {b : Bool} {db' : Db Value} → upsert now mode excluded db ≡ ok ((id, b), db')
      → Resolves now mode excluded db id db'
  unfolding upsert
  upsert-Resolves now mode excluded db v {id} {b} {db'} e =
      elim (Bool-cases (leb_ℤ excluded.max_attempts (pos 0))) [
        | inl bad ↦ absurd (ground (arith, e, bad))
        | inr fine ↦ elim (Option-cases (find_by (λ r. clash_key r excluded) db.jobs)) [
          | inl free ↦ elim (Bool-cases (any_by (λ r. r.id == excluded.id) db.jobs)) [
            | inl used ↦ absurd (ground (arith, e, fine, free, used))
            | inr unused ↦ inl (
              ground (arith, e, fine, free, unused),
              none_any (λ r. clash_key r excluded) db.jobs free,
              subst (λ i. find_id i db ≡ none) {x = excluded.id} {y = id}
                  (ground (arith, e, fine, free, unused)) (not_any excluded.id db.jobs unused),
              reset_at db excluded {id = id} {d = record db { jobs = db.jobs ++ excluded ∷ [] }}
                  {db' = db'} (ground (arith, e, fine, free, unused))
                  (ground (arith, e, fine, free, unused)) (λ k. find_appended excluded db k unused),
            )
          ]
          | inr (j, first) ↦
              let held = find_by-true (λ r. clash_key r excluded) db.jobs {j = j} first in
              let found =
                All-find_by (λ r. find_id r.id db ≡ some r) (λ r. clash_key r excluded) db.jobs
                  {a = j} (rows_found db.jobs v.pairs) first in
              let same : j.id ≡ id = ground (arith, e, fine, first) in
              inr (
                j,
                sym same,
                subst (λ i. find_id i db ≡ some j) same found,
                held,
                reset_at db (touch now (on_conflict mode excluded j))
                    {d = (update_jobs now (λ r. clash_key r excluded) (on_conflict mode excluded)
                      db).0}
                    {db' = db'} same (ground (arith, e, fine, first))
                    (λ k. find_changed now mode excluded j db k v found held),
              )
        ]
      ]

  -- On a valid table, an insert that succeeds returns the id of a new queued row, if no queued or
  -- running job has its key, and otherwise the id of the only job that has, which it changes as the
  -- mode says; every other id leads to the row that it led to.
  pub insert_job-Resolves :
      (clock now : Timestamp) (fresh : Uuid) (name : String) (payload : Value)
      (options : EnqueueOptions) (db : Db Value)
      → IsValid db
      → {id : Uuid} {db' : Db Value}
      → insert_job clock now fresh name payload options db ≡ ok (id, db')
      → Resolves now options.job_key_mode
          (proposed now fresh name payload options (or_else options.run_at clock))
          db
          id
          db'
  unfolding insert_job
  insert_job-Resolves clock now fresh name payload options db v {id} {db'} e =
      elim (Result-cases (upsert now options.job_key_mode row db)) [
        | inl (((i, b), d), p) ↦
            subst (Resolves now options.job_key_mode row db id) {x = d} {y = db'}
              (ground (arith, p))
              (subst (λ x. Resolves now options.job_key_mode row db x d) {x = i} {y = id}
                (ground (arith, p)) (upsert-Resolves now options.job_key_mode row db v p))
        | inr (x, p) ↦ absurd (ground (arith, p))
      ]
    where
      row : Job Value
      row = proposed now fresh name payload options (or_else options.run_at clock)
