-- ===== src/Queue/Batch/Touches.antt =====
-- src/queue.rs: an INSERT touches no active row with another key than its own.
use pgspawn.Prelude.{
  All, All-map, Pairwise, ◌==◌, ◌≡◌, sym, subst, inl, inr, true, false, Option, none, some, List,
  [], ◌∷◌, String, arith, Bool-cases, Option-cases, same_text, any_by, All-find_by, any_by-false,
  text_eq, eq_iff,
}
use pgspawn.Job.{Uuid, Timestamp, Job}
use pgspawn.Table.{Db, clash_key, touch}
use pgspawn.Table.Lookup.{find_id, by_id}
use pgspawn.Queue.Insert.{on_conflict}
use pgspawn.Queue.Insert.Keys.{Resolves}
use pgspawn.Queue.Batch.{duplicate_key, Entry, batch_row, key_of}
use pgspawn.Queue.Batch.Each.{mode_of}

pub keys_meet :
    (a b c : Option String) → same_text a b ≡ true → same_text a c ≡ true → same_text b c ≡ true
keys_meet none b c h g = absurd (ground arith)
keys_meet (some a) none c h g = absurd (ground arith)
keys_meet (some a) (some b) none h g = absurd (ground arith)
keys_meet (some a) (some b) (some c) h g = ground (arith, eq_iff a b, eq_iff a c, eq_iff b c)

pub key_apart :
    (a b c : Option String) → same_text b c ≡ false → same_text a c ≡ true → same_text a b ≡ false
key_apart a b c h g = elim (Bool-cases (same_text a b)) [
  | inl t ↦ absurd (ground (arith, h, keys_meet a b c t g))
  | inr t ↦ t
]

module _ {Value : Type 0} where
  -- Two requests that do not share a job key.
  abbrev pub Apart : Entry Value → Entry Value → Type 0
  Apart x y = same_text (key_of x) (key_of y) ≡ false

  pub Apart-sym : (x y : Entry Value) → Apart x y → Apart y x
  Apart-sym x y h = elim (Option-cases (key_of x)) [
    | inl n ↦ elim (Option-cases (key_of y)) [
      | inl m ↦ ground (arith, n, m)
      | inr (l, m) ↦ ground (arith, n, m)
    ]
    | inr (k, n) ↦ elim (Option-cases (key_of y)) [
      | inl m ↦ ground (arith, n, m)
      | inr (l, m) ↦ ground (arith, n, m, h, eq_iff k l, eq_iff l k)
    ]
  ]

  -- What DO UPDATE SET leaves as it is.
  pub merged_key :
      (now : Timestamp) (x : Entry Value) (j r : Job Value)
      → touch now (on_conflict (mode_of x) (batch_row now x) j) ≡ r
      → r.job_key ≡ j.job_key
  unfolding on_conflict
  merged_key now x j r e = ground (arith, e)

  pub Resolves-stays :
      (now : Timestamp) (x : Entry Value) (db : Db Value) (id : Uuid) (db' : Db Value)
      → Resolves now (mode_of x) (batch_row now x) db id db'
      → (k : Uuid) {r : Job Value} → find_id k db ≡ some r
      → same_text r.job_key (key_of x) ≡ false
      → find_id k db' ≡ some r
  Resolves-stays now x db id db' (inl (e, free, fresh, sets)) k {r} at_k h =
      elim (Bool-cases (k == id)) [
        | inl same ↦ absurd (ground (arith, same, fresh, at_k))
        | inr other ↦ ground (arith, sets k, other, at_k)
      ]
  Resolves-stays now x db id db' (inr (j, e, found, clash, sets)) k {r} at_k h =
      elim (Bool-cases (k == id)) [
        | inl same ↦
            let j_is : j ≡ r = ground (arith, same, found, at_k) in
            absurd (
              ground
                (arith, clash, subst (λ i. same_text i.job_key (key_of x) ≡ false) (sym j_is) h))
        | inr other ↦ ground (arith, sets k, other, at_k)
      ]

  pub Resolves-stood :
      (now : Timestamp) (x : Entry Value) (db : Db Value) (id : Uuid) (db' : Db Value)
      → Resolves now (mode_of x) (batch_row now x) db id db'
      → (k : Uuid) {r : Job Value} → find_id k db' ≡ some r
      → (y : Entry Value) → Apart x y
      → clash_key r (batch_row now y) ≡ true
      → find_id k db ≡ some r
  Resolves-stood now x db id db' (inl (e, free, fresh, sets)) k {r} at_k y apart h =
      elim (Bool-cases (k == id)) [
        | inl same ↦
            let r_is : batch_row now x ≡ r = ground (arith, same, sets k, at_k) in
            absurd (
              ground (arith, apart, subst (λ i. clash_key i (batch_row now y) ≡ true) (sym r_is) h))
        | inr other ↦ ground (arith, sets k, other, at_k)
      ]
  Resolves-stood now x db id db' (inr (j, e, found, clash, sets)) k {r} at_k y apart h =
      elim (Bool-cases (k == id)) [
        | inl same ↦
            let r_is : touch now (on_conflict (mode_of x) (batch_row now x) j) ≡ r =
              ground (arith, same, sets k, at_k) in
            let held : same_text j.job_key (key_of y) ≡ true =
              subst (λ o. same_text o (key_of y) ≡ true) {x = r.job_key} (merged_key now x j r r_is)
                (ground (arith, h)) in
            absurd (
              ground (
                arith,
                apart,
                keys_meet j.job_key (key_of x) (key_of y) (ground (arith, clash)) held,
              ))
        | inr other ↦ ground (arith, sets k, other, at_k)
      ]

  pub no_clash :
      (db : Db Value) (e : Job Value) (k : Uuid) {r : Job Value}
      → find_id k db ≡ some r
      → any_by (λ r. clash_key r e) db.jobs ≡ false
      → clash_key r e ≡ false
  no_clash db e k {r} at_k free =
      All-find_by (λ i. clash_key i e ≡ false) (by_id k) db.jobs {a = r}
        (any_by-false (λ i. clash_key i e) db.jobs free) at_k

  -- No request with a key has one of these.
  abbrev Unseen : List String → Entry Value → Type 0
  Unseen keys y = (k : String) → key_of y ≡ some k → any_by (λ l. text_eq l k) keys ≡ false

  unkeyed-Apart : (x : Entry Value) (ys : List (Entry Value)) → key_of x ≡ none → All (Apart x) ys
  unkeyed-Apart x [] n = tt
  unkeyed-Apart x (y ∷ ys) n = (ground (arith, n), unkeyed-Apart x ys n)

  Unseen-Apart :
      (x y : Entry Value) (k : String) (keys : List String)
      → key_of x ≡ some k
      → Unseen (k ∷ keys) y
      → Apart x y
  Unseen-Apart x y k keys n h = elim (Option-cases (key_of y)) [
    | inl m ↦ ground (arith, n, m)
    | inr (l, m) ↦ ground (arith, n, m, h l m)
  ]

  pub duplicate_key-Apart :
      (keys : List String) (es : List (Entry Value))
      → duplicate_key keys es ≡ none
      → All (Unseen keys) es × Pairwise Apart es
  unfolding duplicate_key
  duplicate_key-Apart keys [] e = (tt, tt)
  duplicate_key-Apart keys (x ∷ es) e = elim (Option-cases (key_of x)) [
    | inl n ↦
        let (unseen, apart) = duplicate_key-Apart keys es (ground (arith, e, n)) in
        (((λ k m. absurd (ground (arith, n, m))), unseen), (unkeyed-Apart x es n, apart))
    | inr (k, n) ↦
        let fresh : any_by (λ l. text_eq l k) keys ≡ false = ground (arith, e, n) in
        let (unseen, apart) = duplicate_key-Apart (k ∷ keys) es (ground (arith, e, n, fresh)) in
        (
          (
            (λ l m.
                subst (λ o. any_by (λ i. text_eq i o) keys ≡ false) {x = k} {y = l}
                  (ground (arith, n, m)) fresh),
            All-map es (λ y h l m. ground (arith, h l m)) unseen,
          ),
          (All-map es (λ y h. Unseen-Apart x y k keys n h) unseen, apart),
        )
  ]
