-- ===== src/Queue/Batch/Keeps.antt =====
-- src/queue.rs: a property of the tables that the INSERT of each entry keeps is kept by a batch.
use pgspawn.Prelude.{
  ◌≡◌, Bool, subst, String, List, [], ◌∷◌, arith, ok, Result-cases, inl, inr, Option-cases,
}
use pgspawn.Job.{Uuid, Timestamp}
use pgspawn.Job.KeyMode.{JobKeyMode}
use pgspawn.Table.{Db}
use pgspawn.Queue.Insert.{upsert}
use pgspawn.Queue.Batch.{
  Entry, batch_row, remember, insert_rows, insert_modes, selected, insert_job_batch, enqueue_many,
  duplicate_key, ordered_ids, all_modes,
}

module _ {κ} {Value : Type 0} where
  module _ (P : Db Value → Type κ)
      (each : (now : Timestamp) (mode : JobKeyMode) (x : Entry Value) (db : Db Value)
        → P db
        → (r : Uuid × Bool) (db' : Db Value) → upsert now mode (batch_row now x) db ≡ ok (r, db')
        → P db') where
    pub insert_rows-keeps :
        (now : Timestamp) (mode : JobKeyMode) (es : List (Entry Value))
        (s : List (String × Uuid) × Db Value)
        → P s.1
        → {s' : List (String × Uuid) × Db Value} → insert_rows now mode es s ≡ ok s'
        → P s'.1
    unfolding insert_rows
    insert_rows-keeps now mode [] s v {s'} e = subst (λ u. P u.1) {x = s} {y = s'} (ground arith) v
    insert_rows-keeps now mode (x ∷ xs) (ids, db) v {s'} e =
        elim (Result-cases (upsert now mode (batch_row now x) db)) [
          | inl (((id, b), db₁), p) ↦
              insert_rows-keeps now mode xs (remember x.request.options.job_key id ids, db₁)
                (each now mode x db v (id, b) db₁ p) {s' = s'} (ground (arith, e, p))
          | inr (y, p) ↦ absurd (ground (arith, e, p))
        ]

    pub insert_modes-keeps :
        (now : Timestamp) (modes : List JobKeyMode) (es : List (Entry Value))
        (s : List (String × Uuid) × Db Value)
        → P s.1
        → {s' : List (String × Uuid) × Db Value} → insert_modes now modes es s ≡ ok s'
        → P s'.1
    unfolding insert_modes
    insert_modes-keeps now [] es s v {s'} e = subst (λ u. P u.1) {x = s} {y = s'} (ground arith) v
    insert_modes-keeps now (mode ∷ modes) es s v {s'} e =
        elim (Result-cases (insert_rows now mode (selected mode es) s)) [
          | inl (s₁, p) ↦
              insert_modes-keeps now modes es s₁
                (insert_rows-keeps now mode (selected mode es) s v p) {s' = s'}
                (ground (arith, e, p))
          | inr (y, p) ↦ absurd (ground (arith, e, p))
        ]

    pub insert_job_batch-keeps :
        (now : Timestamp) (es : List (Entry Value)) (db : Db Value)
        → P db
        → {ids : List Uuid} {db' : Db Value} → insert_job_batch now es db ≡ ok (ids, db')
        → P db'
    unfolding insert_job_batch
    insert_job_batch-keeps now es db v {ids} {db'} e = elim (Option-cases (duplicate_key [] es)) [
      | inr (key, d) ↦ absurd (ground (arith, e, d))
      | inl d ↦ elim (Result-cases (insert_modes now all_modes es ([], db))) [
        | inr (y, p) ↦ absurd (ground (arith, e, d, p))
        | inl (s, p) ↦ elim (Result-cases (ordered_ids s.0 es)) [
          | inr (y, q) ↦ absurd (ground (arith, e, d, p, q))
          | inl (ids₁, q) ↦
              subst P {x = s.1} (ground (arith, e, d, p, q))
                (insert_modes-keeps now all_modes es ([], db) v p)
        ]
      ]
    ]

    pub enqueue_many-keeps :
        (now : Timestamp) (es : List (Entry Value)) (db : Db Value)
        → P db
        → {ids : List Uuid} {db' : Db Value} → enqueue_many now es db ≡ ok (ids, db')
        → P db'
    unfolding enqueue_many
    enqueue_many-keeps now [] db v e = subst P {x = db} (ground arith) v
    enqueue_many-keeps now (x ∷ es) db v e = insert_job_batch-keeps now (x ∷ es) db v e
