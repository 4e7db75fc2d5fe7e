-- ===== src/Environment.antt =====
-- src/environment.rs: the environments, their names, and the parser. `trim` and
-- `eq_ignore_ascii_case` are those of Rust's `str`, over the characters of a text.
pub mod Names
use Prim.Native.Char.{Char, code}
use pgspawn.Prelude.{
  ℕ, suc, ◌+◌, ◌==◌, leb, Bool, true, false, ◌&&◌, ◌||◌, String, List, [], ◌∷◌, map, Result, ok,
  err, if◌then◌else◌, any_by,
}

pub data Environment : Type 0 where
  production staging development local test : Environment

pub data ParseEnvironmentError : Type 0 where
  unsupported : String → ParseEnvironmentError

-- `Environment::ALL`
abbrev pub all_environments : List Environment
all_environments = production ∷ staging ∷ development ∷ local ∷ test ∷ []

-- `Environment::DEPLOYED`
abbrev pub deployed : List Environment
deployed = production ∷ staging ∷ []

unfoldable pub as_str : Environment → String
as_str production = "production"
as_str staging = "staging"
as_str development = "development"
as_str local = "local"
as_str test = "test"

-- Derived `PartialEq`.
abbrev pub env_eq : Environment → Environment → Bool
env_eq production production = true
env_eq staging staging = true
env_eq development development = true
env_eq local local = true
env_eq test test = true
env_eq _ _ = false

-- The code points of a text.
abbrev pub codes : String → List ℕ
codes String.[] = []
codes (String.◌∷◌ c s) = code c ∷ codes s

-- The characters with the property White_Space, which `trim` removes.
unfoldable pub is_whitespace : ℕ → Bool
is_whitespace c =
    (leb 9 c && leb c 13)
    || (leb 8192 c && leb c 8202)
    || any_by (λ w. w == c) (32 ∷ 133 ∷ 160 ∷ 5760 ∷ 8232 ∷ 8233 ∷ 8239 ∷ 8287 ∷ 12288 ∷ [])

pub trim_start : String → String
unfolding is_whitespace
trim_start String.[] = String.[]
trim_start (String.◌∷◌ c s) = if is_whitespace (code c) then trim_start s else String.◌∷◌ c s

abbrev pub push_unless_blank : Char → String → String
push_unless_blank c String.[] = if is_whitespace (code c) then String.[] else String.◌∷◌ c String.[]
push_unless_blank c (String.◌∷◌ d s) = String.◌∷◌ c (String.◌∷◌ d s)

pub trim_end : String → String
unfolding is_whitespace
trim_end String.[] = String.[]
trim_end (String.◌∷◌ c s) = push_unless_blank c (trim_end s)

unfoldable pub trim : String → String
unfolding trim_start trim_end
trim s = trim_end (trim_start s)

-- `to_ascii_lowercase`
unfoldable pub lower : ℕ → ℕ
lower c = if leb b'A' c && leb c b'Z' then c + 32 else c

abbrev pub eq_codes : List ℕ → List ℕ → Bool
eq_codes [] [] = true
eq_codes (a ∷ ks) (b ∷ bs) = a == b && eq_codes ks bs
eq_codes _ _ = false

unfoldable pub eq_ignore_ascii_case : String → String → Bool
unfolding lower
eq_ignore_ascii_case s t = eq_codes (map lower (codes s)) (map lower (codes t))

unfoldable pub from_str : String → Result Environment ParseEnvironmentError
unfolding trim eq_ignore_ascii_case
from_str value =
    if eq_ignore_ascii_case (trim value) "production"
    then ok production
    else if eq_ignore_ascii_case (trim value) "staging"
    then ok staging
    else if eq_ignore_ascii_case (trim value) "development"
    then ok development
    else if eq_ignore_ascii_case (trim value) "local"
    then ok local
    else if eq_ignore_ascii_case (trim value) "test"
    then ok test
    else err (unsupported (trim value))
