-- ===== src/Environment/Names.antt =====
-- src/environment.rs: which texts parse to which environment.
use pgspawn.Prelude.{
  ℕ, ◌≡◌, refl, ◌↔◌, ap, ◌∙◌, length, Result, err, if◌then◌else◌, true, String, List, [], ◌∷◌, map,
  ok, err, arith, sym,
}
use pgspawn.Environment.{
  Environment, ParseEnvironmentError, unsupported, production, staging, development, local, test,
  as_str, codes, trim, lower, eq_codes, eq_ignore_ascii_case, from_str,
}

eq_codes_iff : (ks ls : List ℕ) → (eq_codes ks ls ≡ true) ↔ (ks ≡ ls)
eq_codes_iff [] [] = ((λ e. refl), λ e. refl)
eq_codes_iff [] (l ∷ ls) = ((λ e. cc), λ e. cc)
eq_codes_iff (k ∷ ks) [] = ((λ e. cc), λ e. cc)
eq_codes_iff (k ∷ ks) (l ∷ ls) =
    let rest = eq_codes_iff ks ls in (λ e. ground (arith, rest), λ e. ground (arith, rest))

matches_iff :
    (t : String) (e : Environment)
    → (eq_ignore_ascii_case t (as_str e) ≡ true) ↔ (map lower (codes t) ≡ codes (as_str e))
unfolding eq_ignore_ascii_case as_str
matches_iff t production = eq_codes_iff (map lower (codes t)) (codes "production")
matches_iff t staging = eq_codes_iff (map lower (codes t)) (codes "staging")
matches_iff t development = eq_codes_iff (map lower (codes t)) (codes "development")
matches_iff t local = eq_codes_iff (map lower (codes t)) (codes "local")
matches_iff t test = eq_codes_iff (map lower (codes t)) (codes "test")

-- The tests of the parser in their order: the first name that matches wins.
by_name : String → Result Environment ParseEnvironmentError
by_name t =
    if eq_ignore_ascii_case t (as_str production)
    then ok production
    else if eq_ignore_ascii_case t (as_str staging)
    then ok staging
    else if eq_ignore_ascii_case t (as_str development)
    then ok development
    else if eq_ignore_ascii_case t (as_str local)
    then ok local
    else if eq_ignore_ascii_case t (as_str test)
    then ok test
    else err (unsupported t)

from_str-by_name : (v : String) → from_str v ≡ by_name (trim v)
unfolding from_str by_name as_str
from_str-by_name v = refl

names_apart :
    (d e : Environment) (ks : List ℕ) → ks ≡ codes (as_str d) → ks ≡ codes (as_str e) → d ≡ e
unfolding as_str
names_apart production production ks p q = refl
names_apart staging staging ks p q = refl
names_apart development development ks p q = refl
names_apart local local ks p q = refl
names_apart test test ks p q = refl
names_apart _ _ ks p q = absurd (omega (arith, ap length (sym p ∙ q)))

-- No text matches the names of two environments.
matches_once :
    (t : String) (d e : Environment)
    → eq_ignore_ascii_case t (as_str d) ≡ true
    → eq_ignore_ascii_case t (as_str e) ≡ true
    → d ≡ e
matches_once t d e p q =
    names_apart d e (map lower (codes t)) ((matches_iff t d).0 p) ((matches_iff t e).0 q)

by_name-eq-ok :
    (t : String) (e : Environment) → (by_name t ≡ ok e) ↔ (eq_ignore_ascii_case t (as_str e) ≡ true)
unfolding by_name
by_name-eq-ok t e = ground (
  arith,
  matches_once t production e,
  matches_once t staging e,
  matches_once t development e,
  matches_once t local e,
  matches_once t test e,
)

-- A text parses to an environment exactly when its trimmed lower-case form is the environment's name.
pub from_str-ignores_case :
    (v : String) (e : Environment)
    → (from_str v ≡ ok e) ↔ (map lower (codes (trim v)) ≡ codes (as_str e))
from_str-ignores_case v e = rw from_str-by_name (
  (λ h. (matches_iff (trim v) e).0 ((by_name-eq-ok (trim v) e).0 h)),
  λ h. (by_name-eq-ok (trim v) e).1 ((matches_iff (trim v) e).1 h),
)
