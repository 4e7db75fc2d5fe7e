-- ===== src/Queue/Batch/Each.antt =====
-- src/queue.rs: from what one INSERT of a batch does to its entry and to the entries before and after
-- it, what the statements for all modes do to each entry.
use pgspawn.Prelude.{
  ◌≡◌, refl, Bool, true, false, ◌||◌, List, [], ◌∷◌, All, All-map, All-zip, Pairwise,
  Pairwise-filter_by, Pairwise-dropped, filter_by-true, All-unfilter_by, All-filter_by-where, arith,
  ok, Result-cases, Bool-cases, inl, inr, subst, String,
}
use pgspawn.Job.{Timestamp, Uuid}
use pgspawn.Job.KeyMode.{JobKeyMode, dedupe, replace, preserve_run_at}
use pgspawn.Table.{Db}
use pgspawn.Queue.Insert.{upsert}
use pgspawn.Queue.Batch.{
  Entry, batch_row, remember, mode_eq, selected, insert_rows, insert_modes, all_modes,
}

-- What the loops of a batch carry: `ids_by_job_key` and the tables.
abbrev pub Carried : Type 0 → Type 0
Carried Value = List (String × Uuid) × Db Value

-- What they carry after the row that the INSERT of an entry returned.
abbrev pub carry : {Value : Type 0} → Entry Value → Uuid → Db Value → Carried Value → Carried Value
carry x id db s = (remember x.request.options.job_key id s.0, db)

abbrev pub mode_of : {Value : Type 0} → Entry Value → JobKeyMode
mode_of x = x.request.options.job_key_mode

mode_eq-true : (a b : JobKeyMode) → mode_eq a b ≡ true → b ≡ a
mode_eq-true dedupe dedupe h = refl
mode_eq-true dedupe replace h = absurd (ground arith)
mode_eq-true dedupe preserve_run_at h = absurd (ground arith)
mode_eq-true replace dedupe h = absurd (ground arith)
mode_eq-true replace replace h = refl
mode_eq-true replace preserve_run_at h = absurd (ground arith)
mode_eq-true preserve_run_at dedupe h = absurd (ground arith)
mode_eq-true preserve_run_at replace h = absurd (ground arith)
mode_eq-true preserve_run_at preserve_run_at h = refl

module _ {κ} {Value : Type 0} (now : Timestamp) (Apart : Entry Value → Entry Value → Type κ)
    (apart_sym : (x y : Entry Value) → Apart x y → Apart y x) (Inv : Carried Value → Type κ)
    (Pre : Carried Value → Entry Value → Type κ) (Post : Carried Value → Entry Value → Type κ)
    (keeps : (x : Entry Value) (s : Carried Value)
      → Inv s
      → (id : Uuid) (b : Bool) (db : Db Value)
      → upsert now (mode_of x) (batch_row now x) s.1 ≡ ok ((id, b), db)
      → Inv (carry x id db s))
    (before : (x : Entry Value) (s : Carried Value)
      → Inv s
      → (id : Uuid) (b : Bool) (db : Db Value)
      → upsert now (mode_of x) (batch_row now x) s.1 ≡ ok ((id, b), db)
      → (y : Entry Value) → Apart x y
      → Pre s y
      → Pre (carry x id db s) y)
    (first : (x : Entry Value) (s : Carried Value)
      → Inv s
      → (id : Uuid) (b : Bool) (db : Db Value)
      → upsert now (mode_of x) (batch_row now x) s.1 ≡ ok ((id, b), db)
      → Pre s x
      → Post (carry x id db s) x)
    (later : (x : Entry Value) (s : Carried Value)
      → Inv s
      → (id : Uuid) (b : Bool) (db : Db Value)
      → upsert now (mode_of x) (batch_row now x) s.1 ≡ ok ((id, b), db)
      → (y : Entry Value) → Apart x y
      → Post s y
      → Post (carry x id db s) y) where
  abbrev OfMode : JobKeyMode → Entry Value → Type 0
  OfMode mode x = mode ≡ mode_of x

  -- What a run of the INSERTs of some entries does to an entry that is none of them.
  record Passes (s s' : Carried Value) (y : Entry Value) : Type κ where
    still_before : Pre s y → Pre s' y
    still_after : Post s y → Post s' y

  insert_rows-Passes :
      (mode : JobKeyMode) (es : List (Entry Value)) (s : Carried Value)
      → All (OfMode mode) es
      → Inv s
      → {s' : Carried Value} → insert_rows now mode es s ≡ ok s'
      → Inv s' × ((y : Entry Value) → All (λ x. Apart x y) es → Passes s s' y)
  unfolding insert_rows
  insert_rows-Passes mode [] s m v {s'} e =
      let same : s ≡ s' = ground (arith, e) in
      (
        subst Inv same v,
        (λ y h. record {
          still_before = λ p. subst (λ u. Pre u y) same p;
          still_after = λ p. subst (λ u. Post u y) same p;
        }),
      )
  insert_rows-Passes mode (x ∷ xs) s m v {s'} e =
      elim (Result-cases (upsert now mode (batch_row now x) s.1)) [
        | inl (((id, b), db), p) ↦
            let q = subst (λ o. upsert now o (batch_row now x) s.1 ≡ ok ((id, b), db)) m.0 p in
            let (kept, rest) =
              insert_rows-Passes mode xs (carry x id db s) m.1 (keeps x s v id b db q) {s' = s'}
                (ground (arith, e, p)) in
            (
              kept,
              (λ y h. record {
                still_before = λ r. (rest y h.1).still_before (before x s v id b db q y h.0 r);
                still_after = λ r. (rest y h.1).still_after (later x s v id b db q y h.0 r);
              }),
            )
        | inr (z, p) ↦ absurd (ground (arith, e, p))
      ]

  insert_rows-All :
      (mode : JobKeyMode) (es : List (Entry Value)) (s : Carried Value)
      → All (OfMode mode) es
      → Pairwise Apart es
      → Inv s
      → {s' : Carried Value} → insert_rows now mode es s ≡ ok s'
      → All (Pre s) es
      → All (Post s') es
  unfolding insert_rows
  insert_rows-All mode [] s m a v e h = tt
  insert_rows-All mode (x ∷ xs) s m a v {s'} e h =
      elim (Result-cases (upsert now mode (batch_row now x) s.1)) [
        | inl (((id, b), db), p) ↦
            let q = subst (λ o. upsert now o (batch_row now x) s.1 ≡ ok ((id, b), db)) m.0 p in
            let rest : insert_rows now mode xs (carry x id db s) ≡ ok s' = ground (arith, e, p) in
            let kept = keeps x s v id b db q in
            let next = insert_rows-Passes mode xs (carry x id db s) m.1 kept {s' = s'} rest in
            (
              (next.1 x (All-map xs (λ y. apart_sym x y) a.0)).still_after
                  (first x s v id b db q h.0),
              insert_rows-All mode xs (carry x id db s) m.1 a.1 kept rest
                  (All-zip xs (λ y c r. before x s v id b db q y c r) a.0 h.1),
            )
        | inr (y, p) ↦ absurd (ground (arith, e, p))
      ]

  -- Where an entry stands when the statements of some modes have run.
  abbrev Stage : (done : JobKeyMode → Bool) → Carried Value → Entry Value → Type κ
  Stage done s y = (done (mode_of y) ≡ true → Post s y) × (done (mode_of y) ≡ false → Pre s y)

  abbrev of_mode : JobKeyMode → Entry Value → Bool
  of_mode mode x = mode_eq (mode_of x) mode

  insert_rows-Stage :
      (mode : JobKeyMode) (es : List (Entry Value)) (s : Carried Value) (done : JobKeyMode → Bool)
      → done mode ≡ false
      → Pairwise Apart es
      → Inv s
      → {s' : Carried Value} → insert_rows now mode (selected mode es) s ≡ ok s'
      → All (Stage done s) es
      → Inv s' × All (Stage (λ m. mode_eq m mode || done m) s') es
  insert_rows-Stage mode es s done fresh a v {s'} e h =
      let m : All (OfMode mode) (selected mode es) =
        All-map (selected mode es) (λ x t. mode_eq-true (mode_of x) mode t)
          (filter_by-true (of_mode mode) es) in
      let pre : All (Pre s) (selected mode es) = All-filter_by-where (of_mode mode) (Pre s) es (
        All-map es
          (λ x g t. g.1 (subst (λ o. done o ≡ false) (mode_eq-true (mode_of x) mode t) fresh)) h) in
      let post = All-unfilter_by (of_mode mode) (Post s') es (
        insert_rows-All mode (selected mode es) s m (Pairwise-filter_by (of_mode mode) Apart es a) v
          {s' = s'} e pre) in
      let (kept, passes) = insert_rows-Passes mode (selected mode es) s m v {s' = s'} e in
      (
        kept,
        All-zip es
            (λ y (g : Stage done s y)
                (d : (of_mode mode y ≡ true → Post s' y)
                  × (of_mode mode y ≡ false → All (λ x. Apart x y) (selected mode es))).
              (
                (λ t. elim (Bool-cases (of_mode mode y)) [
                  | inl u ↦ d.0 u
                  | inr u ↦ (passes y (d.1 u)).still_after (g.0 (ground (arith, t, u)))
                ]),
                (λ t. (passes y (d.1 (ground (arith, t)))).still_before (g.1 (ground (arith, t)))),
              ))
            h
            (All-zip es (λ y p q. (p, q)) post
              (Pairwise-dropped (of_mode mode) Apart es apart_sym a)),
      )

  abbrev any_done : List JobKeyMode → JobKeyMode → Bool
  any_done [] m = false
  any_done (mode ∷ modes) m = mode_eq m mode || any_done modes m

  pub insert_modes-All :
      (es : List (Entry Value)) (s : Carried Value)
      → Pairwise Apart es
      → Inv s
      → {s' : Carried Value} → insert_modes now all_modes es s ≡ ok s'
      → All (Pre s) es
      → Inv s' × All (Post s') es
  unfolding insert_modes
  insert_modes-All es s a v {s'} e h =
      elim (Result-cases (insert_rows now dedupe (selected dedupe es) s)) [
        | inr (y, p) ↦ absurd (ground (arith, e, p))
        | inl (s₁, p) ↦ elim (Result-cases (insert_rows now replace (selected replace es) s₁)) [
          | inr (y, q) ↦ absurd (ground (arith, e, p, q))
          | inl (s₂, q) ↦
              let r : insert_rows now preserve_run_at (selected preserve_run_at es) s₂ ≡ ok s' =
                ground (arith, e, p, q) in
              let (v₁, g₁) =
                insert_rows-Stage dedupe es s (any_done []) refl a v p
                  (All-map es (λ x c. ((λ t. absurd (ground (arith, t))), (λ t. c))) h) in
              let (v₂, g₂) =
                insert_rows-Stage replace es s₁ (any_done (dedupe ∷ [])) refl a v₁ q g₁ in
              let (v₃, g₃) =
                insert_rows-Stage preserve_run_at es s₂ (any_done (replace ∷ dedupe ∷ [])) refl a v₂
                  r g₂ in
              (v₃, All-map es (λ x g. g.0 (all_done (mode_of x))) g₃)
        ]
      ]
    where
      all_done : (m : JobKeyMode) → any_done (preserve_run_at ∷ replace ∷ dedupe ∷ []) m ≡ true
      all_done dedupe = refl
      all_done replace = refl
      all_done preserve_run_at = refl
