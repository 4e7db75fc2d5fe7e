-- ===== src/Queue/Batch/Answers.antt =====
-- src/queue.rs: the ids that a batch returns.
use pgspawn.Queue.Batch.Each.{Carried, insert_modes-All}
use pgspawn.Prelude.{
  Pairwise, ◌≡◌, refl, Bool, true, Option, none, some, is_some, String, List, [], ◌∷◌, All, arith,
  ok, Option-cases, inl, inr, length, eq_refl,
}
use pgspawn.Job.{Timestamp, Uuid}
use pgspawn.Table.{Db}
use pgspawn.Queue.Batch.{
  Entry, key_of, lookup_id, remember, insert_modes, all_modes, ordered_ids, duplicate_key,
  insert_job_batch,
}

abbrev has : String → List (String × Uuid) → Bool
has key ids = is_some (lookup_id key ids)

has-remember :
    (k : String) (o : Option String) (id : Uuid) (ids : List (String × Uuid))
    → has k ids ≡ true
    → has k (remember o id ids) ≡ true
has-remember k none id ids h = h
has-remember k (some key) id ids h = ground (arith, h)

module _ {Value : Type 0} where
  -- The key of the entry leads to an id, if it has one.
  abbrev answered : List (String × Uuid) → Entry Value → Bool
  answered ids e = elim (key_of e) [ none ↦ true | some key ↦ has key ids ]

  answered_later :
      (x : Entry Value) (id : Uuid) (ids : List (String × Uuid)) (y : Entry Value)
      → answered ids y ≡ true
      → answered (remember x.request.options.job_key id ids) y ≡ true
  answered_later x id ids y h = elim (Option-cases (key_of y)) [
    | inl n ↦ ground (arith, n)
    | inr (k, n) ↦
        ground (arith, n, has-remember k x.request.options.job_key id ids (ground (arith, n, h)))
  ]

  answered_first :
      (x : Entry Value) (id : Uuid) (ids : List (String × Uuid))
      → answered (remember x.request.options.job_key id ids) x ≡ true
  answered_first x id ids = elim (Option-cases (key_of x)) [
    | inl n ↦ ground (arith, n)
    | inr (k, n) ↦ ground (arith, n, eq_refl k)
  ]

  ordered_ids-ok :
      (ids : List (String × Uuid)) (es : List (Entry Value))
      → All (λ x. answered ids x ≡ true) es
      → (out : List Uuid) × (ordered_ids ids es ≡ ok out) × (length out ≡ length es)
  unfolding ordered_ids
  ordered_ids-ok ids [] h = ([], refl, refl)
  ordered_ids-ok ids (x ∷ es) h =
      let (out, given, same) = ordered_ids-ok ids es h.1 in
      elim (Option-cases (key_of x)) [
        | inl n ↦ (x.id ∷ out, ground (arith, n, given), ground (arith, same))
        | inr (k, n) ↦ elim (Option-cases (lookup_id k ids)) [
          | inl missing ↦ absurd (ground (arith, n, missing, h.0))
          | inr (id, m) ↦ (id ∷ out, ground (arith, n, m, given), ground (arith, same))
        ]
      ]

  insert_modes-answered :
      (now : Timestamp) (es : List (Entry Value)) (s : Carried Value) {s' : Carried Value}
      → insert_modes now all_modes es s ≡ ok s'
      → All (λ x. answered s'.0 x ≡ true) es
  insert_modes-answered now es s e =
      (insert_modes-All now (λ x y. Unit {0}) (λ x y h. tt) (λ s. Unit {0}) (λ s x. Unit {0})
        (λ s x. answered s.0 x ≡ true) (λ x s v id b db p. tt) (λ x s v id b db p y a h. tt)
        (λ x s v id b db p h. answered_first x id s.0)
        (λ x s v id b db p y a h. answered_later x id s.0 y h) es s (all_pairs es) tt e (all es)).1
    where
      all : (ys : List (Entry Value)) → All (λ y. Unit {0}) ys
      all [] = tt
      all (y ∷ ys) = (tt, all ys)

      all_pairs : (ys : List (Entry Value)) → Pairwise (λ x y. Unit {0}) ys
      all_pairs [] = tt
      all_pairs (y ∷ ys) = (all ys, all_pairs ys)

  -- A batch without a repeated key whose statements succeed returns one id for each request, in their
  -- order: no request is left without an id, so that the protocol error never comes.
  pub insert_job_batch-answers :
      (now : Timestamp) (es : List (Entry Value)) (db : Db Value)
      {s : List (String × Uuid) × Db Value}
      → duplicate_key [] es ≡ none
      → insert_modes now all_modes es ([], db) ≡ ok s
      → (ids : List Uuid) × (insert_job_batch now es db ≡ ok (ids, s.1))
        × (ordered_ids s.0 es ≡ ok ids)
        × (length ids ≡ length es)
  unfolding insert_job_batch
  insert_job_batch-answers now es db {s} d e =
      let (ids, given, same) = ordered_ids-ok s.0 es (insert_modes-answered now es ([], db) e) in
      (ids, ground (arith, d, e, given), given, same)
