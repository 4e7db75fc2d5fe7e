-- ===== src/Queue/Batch/Alone.antt =====
-- src/queue.rs: each request of a batch ends as if its job had been inserted alone.
use pgspawn.Prelude.{
  any_by, All-map, ◌==◌, ◌≡◌, refl, sym, subst, ◌⊎◌, inl, inr, Bool, true, false, none, some, List,
  [], ◌∷◌, arith, Bool-cases, Option-cases, ok, All, Pairwise, same_text, eq_refl,
}
use pgspawn.Job.{Uuid, Timestamp, Job}
use pgspawn.Table.{Db, clash_key, touch}
use pgspawn.Table.Valid.{IsValid}
use pgspawn.Table.Lookup.{rows_found, find_id}
use pgspawn.Queue.Insert.{on_conflict, upsert}
use pgspawn.Queue.Insert.Valid.{upsert-IsValid}
use pgspawn.Queue.Insert.Keys.{Resolves, upsert-Resolves}
use pgspawn.Queue.Batch.{
  Entry, batch_row, key_of, id_of, insert_modes, all_modes, ordered_ids, insert_job_batch,
  duplicate_key,
}
use pgspawn.Queue.Batch.Each.{Carried, carry, mode_of, insert_modes-All}
use pgspawn.Queue.Batch.Touches.{
  duplicate_key-Apart, Apart, Apart-sym, key_apart, merged_key, Resolves-stays, Resolves-stood,
  no_clash,
}

module _ {Value : Type 0} where
  -- The request has got `id`, and the row under it is the one that an INSERT of the request alone into
  -- the tables `start` makes: a new one if no active row of theirs has the key, and otherwise the only
  -- one that has, as ON CONFLICT changes it.
  abbrev pub AsAlone : Timestamp → (start : Db Value) → Entry Value → Uuid → Db Value → Type 0
  AsAlone now start x id db =
      ((id ≡ x.id)
        × (find_id id start ≡ none)
        × (any_by (λ r. clash_key r (batch_row now x)) start.jobs ≡ false)
        × (find_id id db ≡ some (batch_row now x)))
      ⊎ ((j : Job Value) × (find_id id start ≡ some j)
          × (clash_key j (batch_row now x) ≡ true)
          × (find_id id db ≡ some (touch now (on_conflict (mode_of x) (batch_row now x) j))))

  none_clashes :
      (e : Job Value) (rs : List (Job Value))
      → All (λ r. clash_key r e ≡ false) rs
      → any_by (λ r. clash_key r e) rs ≡ false
  none_clashes e [] h = refl
  none_clashes e (r ∷ rs) h = ground (arith, h.0, none_clashes e rs h.1)

  module _ (now : Timestamp) (start : Db Value) where
    record Since (s : Carried Value) : Type 0 where
      valid : IsValid s.1
      kept : (k : Uuid) → find_id k s.1 ≡ none → find_id k start ≡ none

    -- The active row under the key, if there is one, is the one of the start.
    abbrev Waits : Carried Value → Entry Value → Type 0
    Waits s y =
        (k : Uuid) (r : Job Value)
        → clash_key r (batch_row now y) ≡ true
        → (find_id k s.1 ≡ some r → find_id k start ≡ some r)
          × (find_id k start ≡ some r → find_id k s.1 ≡ some r)

    abbrev Ended : Carried Value → Entry Value → Type 0
    Ended s x = (id : Uuid) × (id_of s.0 x ≡ ok id) × AsAlone now start x id s.1

    module _ (x : Entry Value) (s : Carried Value) (v : Since s) (id : Uuid) (b : Bool)
        (db : Db Value) (p : upsert now (mode_of x) (batch_row now x) s.1 ≡ ok ((id, b), db)) where
      done : Resolves now (mode_of x) (batch_row now x) s.1 id db
      done = upsert-Resolves now (mode_of x) (batch_row now x) s.1 v.valid p

      stays :
          (k : Uuid) {r : Job Value}
          → find_id k s.1 ≡ some r
          → same_text r.job_key (key_of x) ≡ false
          → find_id k db ≡ some r
      stays = Resolves-stays now x s.1 id db done

      not_lost : (k : Uuid) → find_id k db ≡ none → find_id k s.1 ≡ none
      not_lost k gone = elim (Bool-cases (k == id)) [
        | inl same ↦ elim done [
          | inl (e, free, fresh, sets) ↦ absurd (ground (arith, same, sets k, gone))
          | inr (j, e, found, clash, sets) ↦ absurd (ground (arith, same, sets k, gone))
        ]
        | inr other ↦ elim done [
          | inl (e, free, fresh, sets) ↦ ground (arith, other, sets k, gone)
          | inr (j, e, found, clash, sets) ↦ ground (arith, other, sets k, gone)
        ]
      ]

      carry-Since : Since (carry x id db s)
      carry-Since = record {
        valid =
            upsert-IsValid now (mode_of x) (batch_row now x) s.1 (λ a. ground arith) refl v.valid p;
        kept = λ k gone. v.kept k (not_lost k gone);
      }

      carry-Waits : (y : Entry Value) → Apart x y → Waits s y → Waits (carry x id db s) y
      carry-Waits y apart w k r h = (
        (λ at_k. (w k r h).0 (Resolves-stood now x s.1 id db done k at_k y apart h)),
        (λ at_k.
            stays k ((w k r h).1 at_k)
              (key_apart r.job_key (key_of x) (key_of y) apart (ground (arith, h)))),
      )

      id_of-carry_own : (key_of x ≡ none → id ≡ x.id) → id_of (carry x id db s).0 x ≡ ok id
      id_of-carry_own h = elim (Option-cases (key_of x)) [
        | inl n ↦ ground (arith, n, h n)
        | inr (k, n) ↦ ground (arith, n, eq_refl k)
      ]

      id_of-carry : (y : Entry Value) → Apart x y → id_of (carry x id db s).0 y ≡ id_of s.0 y
      id_of-carry y apart = elim (Option-cases (key_of x)) [
        | inl n ↦ ground (arith, n)
        | inr (k, n) ↦ elim (Option-cases (key_of y)) [
          | inl m ↦ ground (arith, n, m)
          | inr (l, m) ↦ ground (arith, n, m, apart)
        ]
      ]

      unkeyed : key_of x ≡ none → id ≡ x.id
      unkeyed n = elim done [
        | inl (e, free, fresh, sets) ↦ e
        | inr (j, e, found, clash, sets) ↦ elim (Option-cases j.job_key) [
          | inl m ↦ absurd (ground (arith, clash, n, m))
          | inr (k, m) ↦ absurd (ground (arith, clash, n, m))
        ]
      ]

      carry-first : IsValid start → Waits s x → Ended (carry x id db s) x
      carry-first v₀ w = (id, id_of-carry_own unkeyed, alone)
        where
          alone : AsAlone now start x id db
          alone = elim done [
            | inl (e, free, fresh, sets) ↦ inl (
              e,
              v.kept id fresh,
              none_clashes (batch_row now x) start.jobs (
                  All-map start.jobs
                    (λ r at_r. elim (Bool-cases (clash_key r (batch_row now x))) [
                      | inl t ↦ absurd (
                          ground (
                            arith,
                            t,
                            no_clash s.1 (batch_row now x) r.id {r = r} ((w r.id r t).1 at_r) free,
                          ))
                      | inr t ↦ t
                    ])
                    (rows_found start.jobs v₀.pairs)),
              ground (arith, sets id),
            )
            | inr (j, e, found, clash, sets) ↦
                inr (j, (w id j clash).0 found, clash, ground (arith, sets id))
          ]

      carry-later : (y : Entry Value) → Apart x y → Ended s y → Ended (carry x id db s) y
      carry-later y apart (i, given, inl (e, fresh, free, at_i)) = (
        i,
        ground (arith, id_of-carry y apart, given),
        inl (e, fresh, free, stays i at_i (Apart-sym x y apart)),
      )
      carry-later y apart (i, given, inr (j, found, clash, at_i)) = (
        i,
        ground (arith, id_of-carry y apart, given),
        inr (
          j,
          found,
          clash,
          stays i at_i (
              subst (λ o. same_text o (key_of x) ≡ false)
                {y = (touch now (on_conflict (mode_of y) (batch_row now y) j)).job_key}
                (sym (merged_key now y j _ refl))
                (key_apart j.job_key (key_of x) (key_of y) apart (ground (arith, clash)))),
        ),
      )

  insert_modes-Ended :
      (now : Timestamp) (es : List (Entry Value)) (start : Db Value)
      → IsValid start
      → Pairwise Apart es
      → {s : Carried Value} → insert_modes now all_modes es ([], start) ≡ ok s
      → All (Ended now start s) es
  insert_modes-Ended now es start v apart {s} e =
      (insert_modes-All now Apart Apart-sym (Since now start) (Waits now start) (Ended now start)
        (carry-Since now start) (carry-Waits now start)
        (λ x s u id b db p w. carry-first now start x s u id b db p v w) (carry-later now start) es
        ([], start) apart (record { valid = v; kept = λ k h. h }) {s' = s} e (all_wait es)).1
    where
      all_wait : (ys : List (Entry Value)) → All (Waits now start ([], start)) ys
      all_wait [] = tt
      all_wait (y ∷ ys) = ((λ k r h. ((λ f. f), (λ f. f))), all_wait ys)

  -- Two lists of one length, whose entries are related one by one.
  abbrev pub Matches {ℓ} :
      {B : Type ℓ} → (Entry Value → B → Type 0) → List (Entry Value) → List B → Type 0
  Matches R [] [] = Unit
  Matches R [] (i ∷ is) = ⊥
  Matches R (x ∷ es) [] = ⊥
  Matches R (x ∷ es) (i ∷ is) = R x i × Matches R es is

  ordered_ids-Matches :
      (now : Timestamp) (start : Db Value) (s : Carried Value) (es : List (Entry Value))
      → All (Ended now start s) es
      → (ids : List Uuid) × (ordered_ids s.0 es ≡ ok ids)
        × Matches (λ x id. AsAlone now start x id s.1) es ids
  unfolding ordered_ids
  ordered_ids-Matches now start s [] h = ([], refl, tt)
  ordered_ids-Matches now start s (x ∷ es) ((id, given, alone), h) =
      let (ids, rest, match) = ordered_ids-Matches now start s es h in
      (id ∷ ids, ground (arith, given, rest), (alone, match))

  -- On a valid table, a batch without a repeated key whose statements succeed returns one id for each
  -- request, in their order, and each request has ended as if its job had been inserted alone into the
  -- tables as they were: without an active job under its key there is a new queued row under its own
  -- id; otherwise its id is the one of the active job that had the key, which has changed as the
  -- request's mode says, and in no other way.
  pub insert_job_batch-AsAlone :
      (now : Timestamp) (es : List (Entry Value)) (db : Db Value)
      → IsValid db
      → {s : Carried Value} → duplicate_key [] es ≡ none
      → insert_modes now all_modes es ([], db) ≡ ok s
      → (ids : List Uuid) × (insert_job_batch now es db ≡ ok (ids, s.1))
        × Matches (λ x id. AsAlone now db x id s.1) es ids
  unfolding insert_job_batch
  insert_job_batch-AsAlone now es db v {s} d e =
      let (ids, given, match) =
        ordered_ids-Matches now db s es
          (insert_modes-Ended now es db v (duplicate_key-Apart [] es d).1 {s = s} e) in
      (ids, ground (arith, d, e, given), match)
