-- ===== src/Queue/Recover/Owners.antt =====
-- src/queue.rs and src/worker.rs: the owners of locks, `{worker_id}:{index}:{uuid}`, and the prefix
-- `{worker_id}:` by which the statements find the locks of a worker.
use Prim.Native.Char.{Char, code}
use Prim.Native.String.append
use Prim.Native.String.{[] as []ₛ, ◌∷◌ as ◌∷ₛ◌}
use text.Mathlib.TextLemmas.{head-eq_of_cons-eq, tail-eq_of_cons-eq, append_assoc}
use pgspawn.Prelude.{
  ◌≡◌, refl, sym, ap, ◌∙◌, Bool, true, not, ◌&&◌, ◌==◌, String, ◌++ₛ◌, starts_with, starts_with_iff,
  arith,
}

-- 58 is the code of the colon.
abbrev pub no_colon : String → Bool
no_colon []ₛ = true
no_colon (c ∷ₛ s) = let rest = no_colon s in not (code c == 58) && rest

abbrev colon : Char
colon = ":"

colon_first : (r : String) → (":" ++ₛ r) ≡ (colon ∷ₛ r)
colon_first r = append.cons colon []ₛ r ∙ ap (λ s. colon ∷ₛ s) (append.nil r)

-- An id that is followed by more does not end where a shorter one's colon stands.
colon_inside :
    (d : Char) (w r s : String)
    → no_colon (d ∷ₛ w) ≡ true
    → ([]ₛ ++ₛ (":" ++ₛ r)) ≡ ((d ∷ₛ w) ++ₛ s)
    → ⊥
colon_inside d w r s h e =
    let same : (colon ∷ₛ r) ≡ (d ∷ₛ (w ++ₛ s)) =
      sym (colon_first r) ∙ sym (append.nil (":" ++ₛ r)) ∙ e ∙ append.cons d w s in
    let is_colon : code colon ≡ code d = ap code (head-eq_of_cons-eq same) in
    absurd (ground (arith, h, is_colon))

-- Two ids without a colon that a colon follows in one text are the same.
one_id :
    (v w r s : String)
    → no_colon v ≡ true
    → no_colon w ≡ true
    → (v ++ₛ (":" ++ₛ r)) ≡ (w ++ₛ (":" ++ₛ s))
    → v ≡ w
one_id []ₛ []ₛ r s hv hw e = refl
one_id []ₛ (d ∷ₛ w) r s hv hw e = absurd (colon_inside d w r (":" ++ₛ s) hw e)
one_id (c ∷ₛ v) []ₛ r s hv hw e = absurd (colon_inside c v s (":" ++ₛ r) hv (sym e))
one_id (c ∷ₛ v) (d ∷ₛ w) r s hv hw e =
    let same : (c ∷ₛ (v ++ₛ (":" ++ₛ r))) ≡ (d ∷ₛ (w ++ₛ (":" ++ₛ s))) =
      sym (append.cons c v (":" ++ₛ r)) ∙ e ∙ append.cons d w (":" ++ₛ s) in
    let rest = one_id v w r s (ground (arith, hv)) (ground (arith, hw)) (tail-eq_of_cons-eq same) in
    λ i. head-eq_of_cons-eq same i ∷ₛ rest i

-- No owner has two worker ids without a colon.
pub one_owner :
    (owner v w : String)
    → no_colon v ≡ true
    → no_colon w ≡ true
    → starts_with owner (v ++ₛ ":") ≡ true
    → starts_with owner (w ++ₛ ":") ≡ true
    → v ≡ w
one_owner owner v w hv hw a b =
    let (r, er) = (starts_with_iff owner (v ++ₛ ":")).0 a in
    let (s, es) = (starts_with_iff owner (w ++ₛ ":")).0 b in
    one_id v w r s hv hw (sym (append_assoc v ":" r) ∙ er ∙ sym es ∙ append_assoc w ":" s)
