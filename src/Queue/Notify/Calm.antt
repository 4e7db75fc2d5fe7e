-- ===== src/Queue/Notify/Calm.antt =====
-- migrations/0001_init.sql: what a statement that notifies nobody cannot have done. It made no job
-- claimable: no job was queued, none got another time, name or queue, and no queue was freed.
use pgspawn.Prelude.{
  ◌==◌, ◌≡◌, refl, sym, subst, ◌∙◌, inl, inr, Bool, true, false, none, some, is_some, arith,
  if◌then◌else◌, List, [], ◌∷◌, any_by, find_by, All-find_by, Bool-cases, Option-cases,
}
use pgspawn.Job.{Uuid, Timestamp, Job}
use pgspawn.Table.{Db, is_queued, is_running, touch, update_jobs}
use pgspawn.Table.Valid.{RowOk, IsValid}
use pgspawn.Table.Lookup.{find_id, by_id, find_by-update_rows}
use pgspawn.Queue.Notify.{row_notifies, update_notifies}

module _ {Value : Type 0} where
  -- A queued row was the same to a claim before.
  pub record WasQueued (old new : Job Value) : Type 0 where
    pub queued_before : is_queued old.status ≡ true
    pub same_time : new.run_at ≡ old.run_at
    pub same_name : new.name ≡ old.name
    pub same_queue : new.queue_name ≡ old.queue_name

  -- A running row of a named queue still occupies it.
  pub record StillRuns (old new : Job Value) : Type 0 where
    pub runs_after : is_running new.status ≡ true
    pub queue_kept : new.queue_name ≡ old.queue_name

  pub record RowCalm (old new : Job Value) : Type 0 where
    pub row_kept : is_queued new.status ≡ true → WasQueued old new
    pub slot_kept : is_running old.status ≡ true → is_some old.queue_name ≡ true → StillRuns old new

  abbrev pub HadRow : Db Value → Uuid → Job Value → Type 0
  HadRow db k new = (old : Job Value) × (find_id k db ≡ some old) × WasQueued old new

  abbrev pub KeepsSlot : Db Value → Uuid → Job Value → Type 0
  KeepsSlot db' k old = (new : Job Value) × (find_id k db' ≡ some new) × StillRuns old new

  pub record IsCalm (db db' : Db Value) : Type 0 where
    pub rows_kept :
        (k : Uuid) (new : Job Value)
        → find_id k db' ≡ some new
        → is_queued new.status ≡ true
        → HadRow db k new
    pub slots_kept :
        (k : Uuid) (old : Job Value)
        → find_id k db ≡ some old
        → is_running old.status ≡ true
        → is_some old.queue_name ≡ true
        → KeepsSlot db' k old

  WasQueued-refl : (r : Job Value) → is_queued r.status ≡ true → WasQueued r r
  WasQueued-refl r h = record {
    queued_before = h;
    same_time = refl;
    same_name = refl;
    same_queue = refl;
  }

  pub RowCalm-refl : (r : Job Value) → RowCalm r r
  RowCalm-refl r = record {
    row_kept = λ h. WasQueued-refl r h;
    slot_kept = λ h n. record { runs_after = h; queue_kept = refl };
  }

  pub IsCalm-refl : (db : Db Value) → IsCalm db db
  IsCalm-refl db = record {
    rows_kept = λ k new e h. (new, e, WasQueued-refl new h);
    slots_kept = λ k old e h n. (old, e, record { runs_after = h; queue_kept = refl });
  }

  pub IsCalm-trans : {d₁ d₂ d₃ : Db Value} → IsCalm d₁ d₂ → IsCalm d₂ d₃ → IsCalm d₁ d₃
  IsCalm-trans c d = record {
    rows_kept = λ k new e h.
        let (mid, f, w) = d.rows_kept k new e h in
        let (old, g, u) = c.rows_kept k mid f w.queued_before in
        (
          old,
          g,
          record {
            queued_before = u.queued_before;
            same_time = w.same_time ∙ u.same_time;
            same_name = w.same_name ∙ u.same_name;
            same_queue = w.same_queue ∙ u.same_queue;
          },
        );
    slots_kept = λ k old e h n.
        let (mid, f, w) = c.slots_kept k old e h n in
        let (new, g, u) =
          d.slots_kept k mid f w.runs_after (subst (λ q. is_some q ≡ true) (sym w.queue_kept) n) in
        (new, g, record { runs_after = u.runs_after; queue_kept = u.queue_kept ∙ w.queue_kept });
  }

  -- Two tables that differ under no id, or under one id by a calm change.
  pub IsCalm-rows :
      (db db' : Db Value)
      → ((k : Uuid)
          → (old : Job Value) → find_id k db ≡ some old
          → (new : Job Value) × (find_id k db' ≡ some new) × RowCalm old new)
      → ((k : Uuid) → find_id k db ≡ none → find_id k db' ≡ none)
      → IsCalm db db'
  IsCalm-rows db db' f g = record {
    rows_kept = λ k new e h. elim (Option-cases (find_id k db)) [
      | inl n ↦ absurd (ground (arith, g k n, e))
      | inr (old, q) ↦
          let (new₁, p, c) = f k old q in
          (old, q, (subst (RowCalm old) {x = new₁} {y = new} (ground (arith, p, e)) c).row_kept h)
    ];
    slots_kept = λ k old e h n. let (new, p, c) = f k old e in (new, p, c.slot_kept h n);
  }

  pub any_by-find :
      (k : Uuid) (p : Job Value → Bool) (rs : List (Job Value)) {j : Job Value}
      → any_by p rs ≡ false
      → find_by (by_id k) rs ≡ some j
      → p j ≡ false
  any_by-find k p [] h e = absurd (ground arith)
  any_by-find k p (r ∷ rs) {j} h e = elim (Bool-cases (r.id == k)) [
    | inl t ↦ subst (λ x. p x ≡ false) {x = r} {y = j} (ground (arith, t)) (ground arith)
    | inr t ↦ any_by-find k p rs {j = j} (ground arith) (ground (arith, t))
  ]

  module _ (sets_status sets_run_at : Bool) (now : Timestamp) (p : Job Value → Bool)
      (f : Job Value → Job Value) (id_kept : (r : Job Value) → (f r).id ≡ r.id)
      (calm : (r : Job Value)
        → RowOk r
        → p r ≡ true
        → row_notifies sets_status sets_run_at r (f r) ≡ false
        → RowCalm r (touch now (f r))) where
    pub update_jobs-IsCalm :
        (db : Db Value)
        → IsValid db
        → update_notifies sets_status sets_run_at p f db.jobs ≡ false
        → IsCalm db (update_jobs now p f db).0
    unfolding update_jobs update_notifies
    update_jobs-IsCalm db v quiet =
        IsCalm-rows db _
          (λ k old e. (
            if p old then touch now (f old) else old,
            rw (find_by-update_rows p (λ r. touch now (f r)) id_kept k db.jobs, e) refl,
            elim (Bool-cases (p old)) [
              | inl t ↦ rw t (
                  calm old (All-find_by RowOk (by_id k) db.jobs {a = old} v.rows e) t
                    (ground (arith, t, any_by-find k _ db.jobs {j = old} quiet e)))
              | inr t ↦ rw t (RowCalm-refl old)
            ],
          ))
          (λ k n. rw (find_by-update_rows p (λ r. touch now (f r)) id_kept k db.jobs, n) refl)
