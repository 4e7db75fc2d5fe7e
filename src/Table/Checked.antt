-- ===== src/Table/Checked.antt =====
-- UPDATE of one row under the unique indexes, and the invariant of the jobs table.
use pgspawn.Prelude.{
  ◌≡◌, refl, ◌∙◌, Bool, true, false, ◌&&◌, ◌==◌, List, [], ◌∷◌, All, Pairwise, arith, ℕ,
  if◌then◌else◌, Bool-cases, inl, inr, All-map, any_by, String, text_eq, eq_iff, same_text, Option,
  none, some, ok, subst,
}
use pgspawn.Job.{Timestamp, Job, Uuid}
use pgspawn.Table.{
  Db, touch, update_rows, update_jobs, update_checked, clashes, clash_key, clash_queue,
}
use pgspawn.Table.Valid.{RowOk, Compatible, IsValid, touch-RowOk}

text_eq_comm : (s t : String) → text_eq s t ≡ text_eq t s
text_eq_comm s t = ground (arith, eq_iff s t, eq_iff t s)

pub same_text_comm : (s t : Option String) → same_text s t ≡ same_text t s
same_text_comm none none = refl
same_text_comm none (some t) = refl
same_text_comm (some s) none = refl
same_text_comm (some s) (some t) = text_eq_comm s t

module _ {Value : Type 0} where
  pub clash_key_comm : (r s : Job Value) → clash_key r s ≡ clash_key s r
  clash_key_comm r s = ground (arith, same_text_comm r.job_key s.job_key)

  pub clash_queue_comm : (r s : Job Value) → clash_queue r s ≡ clash_queue s r
  clash_queue_comm r s = ground (arith, same_text_comm r.queue_name s.queue_name)

  module _ (p : Job Value → Bool) (f : Job Value → Job Value) (k : Uuid)
      (one : (r : Job Value) → p r ≡ true → r.id ≡ k) (id_kept : (r : Job Value) → (f r).id ≡ r.id)
      (kept : (r : Job Value) → RowOk r → p r ≡ true → RowOk (f r)) where
    -- The changed row does not clash with `s`.
    record Fits (r s : Job Value) : Type 0 where
      key_free : (r.id == s.id) ≡ false → clash_key (f r) s ≡ false
      queue_free : (r.id == s.id) ≡ false → clash_queue (f r) s ≡ false

    upd : Job Value → Job Value
    upd r = if p r then f r else r

    upd-RowOk : (r : Job Value) → RowOk r → RowOk (upd r)
    unfolding upd
    upd-RowOk r h = ground (arith, kept r h)

    rows_kept : (rs : List (Job Value)) → All RowOk rs → All RowOk (update_rows p f rs)
    unfolding update_rows upd
    rows_kept [] h = h
    rows_kept (r ∷ rs) h = (upd-RowOk r h.0, rows_kept rs h.1)

    upd-Compatible :
        (r s : Job Value)
        → Compatible r s
        → (p r ≡ true → Fits r s)
        → (p s ≡ true → Fits s r)
        → Compatible (upd r) (upd s)
    unfolding upd
    upd-Compatible r s c fr fs = elim (Bool-cases (p r)) [
      | inl pr ↦ elim (Bool-cases (p s)) [
        | inl ps ↦ absurd (ground (arith, one r pr, one s ps, c.ids))
        | inr ns ↦
            rw (pr, ns)
              (record {
                ids = ground (arith, id_kept r, c.ids);
                keys = (fr pr).key_free c.ids;
                queues = (fr pr).queue_free c.ids;
              })
      ]
      | inr nr ↦ elim (Bool-cases (p s)) [
        | inl ps ↦
            let apart : (s.id == r.id) ≡ false = ground (arith, c.ids) in
            rw (nr, ps)
              (record {
                ids = ground (arith, id_kept s, c.ids);
                keys = clash_key_comm r (f s) ∙ (fs ps).key_free apart;
                queues = clash_queue_comm r (f s) ∙ (fs ps).queue_free apart;
              })
        | inr ns ↦ rw (nr, ns) c
      ]
    ]

    row_pairs :
        (r : Job Value) (rs : List (Job Value))
        → All (Compatible r) rs
        → (p r ≡ true → All (Fits r) rs)
        → All (λ s. p s ≡ true → Fits s r) rs
        → All (Compatible (upd r)) (update_rows p f rs)
    unfolding update_rows upd
    row_pairs r [] c fr fs = tt
    row_pairs r (s ∷ rs) c fr fs =
        (upd-Compatible r s c.0 (λ e. (fr e).0) fs.0, row_pairs r rs c.1 (λ e. (fr e).1) fs.1)

    pairs_kept :
        (rs : List (Job Value))
        → All (λ r. p r ≡ true → All (Fits r) rs) rs
        → Pairwise Compatible rs
        → Pairwise Compatible (update_rows p f rs)
    unfolding update_rows upd
    pairs_kept [] h c = tt
    pairs_kept (r ∷ rs) h c = (
      row_pairs r rs c.0 (λ e. (h.0 e).1) (All-map rs (λ s g e. (g e).0) h.1),
      pairs_kept rs (All-map rs (λ s g e. (g e).1) h.1) c.1,
    )

    no_clash :
        (r : Job Value) (rs : List (Job Value))
        → clashes clash_key (f r) rs ≡ false
        → clashes clash_queue (f r) rs ≡ false
        → All (Fits r) rs
    no_clash r [] a b = tt
    no_clash r (s ∷ rs) a b = (
      record { key_free = ground (arith, id_kept r); queue_free = ground (arith, id_kept r) },
      no_clash r rs (ground arith) (ground arith),
    )

    All-fit :
        (whole rs : List (Job Value))
        → any_by (λ r. p r && clashes clash_key (f r) whole) rs ≡ false
        → any_by (λ r. p r && clashes clash_queue (f r) whole) rs ≡ false
        → All (λ r. p r ≡ true → All (Fits r) whole) rs
    All-fit whole [] a b = tt
    All-fit whole (r ∷ rs) a b = (
      λ e. no_clash r whole (ground arith) (ground arith),
      All-fit whole rs (ground arith) (ground arith),
    )

  -- An UPDATE of the one row under an id, if the indexes accept it, keeps the table valid.
  pub update_checked-IsValid :
      (now : Timestamp) (p : Job Value → Bool) (f : Job Value → Job Value) (k : Uuid)
      (db : Db Value)
      → ((r : Job Value) → p r ≡ true → r.id ≡ k)
      → ((r : Job Value) → (f r).id ≡ r.id)
      → ((r : Job Value) → RowOk r → p r ≡ true → RowOk (f r))
      → IsValid db
      → {db' : Db Value} {n : ℕ} → update_checked now p f db ≡ ok (db', n)
      → IsValid db'
  unfolding update_checked update_jobs
  update_checked-IsValid now p f k db one id_kept kept v {db'} {n} e = elim (Bool-cases busy) [
    | inl b ↦ absurd (ground (arith, e, b))
    | inr b ↦ elim (Bool-cases held) [
      | inl h ↦ absurd (ground (arith, e, b, h))
      | inr h ↦ subst IsValid {x = (update_jobs now p f db).0} (ground (arith, e, b, h)) (record {
        rows = rows_kept p g k one id_kept kept' db.jobs v.rows;
        pairs =
            pairs_kept p g k one id_kept kept' db.jobs
              (All-fit p g k one id_kept kept' db.jobs db.jobs h b) v.pairs;
      })
    ]
  ]
    where
      busy : Bool
      busy = any_by (λ r. p r && clashes clash_queue (f r) db.jobs) db.jobs

      held : Bool
      held = any_by (λ r. p r && clashes clash_key (f r) db.jobs) db.jobs

      g : Job Value → Job Value
      g j = touch now (f j)

      kept' : (r : Job Value) → RowOk r → p r ≡ true → RowOk (g r)
      kept' r h e = touch-RowOk (kept r h e)
