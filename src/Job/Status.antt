-- ===== src/Job/Status.antt =====
-- src/job.rs, `JobStatus`: its text form, as the status column holds it, and the parser.
use pgspawn.Prelude.{
  ◌≡◌, refl, Bool, true, false, String, Result, ok, err, text_eq, eq_iff, if◌then◌else◌, ◌↔◌, arith,
  subst, sym,
}

pub data JobStatus : Type 0 where
  queued running succeeded failed cancelled : JobStatus

-- The error keeps the text that is no status.
pub data ParseJobStatusError : Type 0 where
  unknown_status : String → ParseJobStatusError

unfoldable pub as_str : JobStatus → String
as_str queued = "queued"
as_str running = "running"
as_str succeeded = "succeeded"
as_str failed = "failed"
as_str cancelled = "cancelled"

abbrev pub is_terminal : JobStatus → Bool
is_terminal succeeded = true
is_terminal failed = true
is_terminal cancelled = true
is_terminal _ = false

unfoldable pub from_str : String → Result JobStatus ParseJobStatusError
from_str value =
    if text_eq value "queued"
    then ok queued
    else if text_eq value "running"
    then ok running
    else if text_eq value "succeeded"
    then ok succeeded
    else if text_eq value "failed"
    then ok failed
    else if text_eq value "cancelled"
    then ok cancelled
    else err (unknown_status value)

pub from_str-as_str : (s : JobStatus) → from_str (as_str s) ≡ ok s
unfolding from_str as_str
from_str-as_str queued = refl
from_str-as_str running = refl
from_str-as_str succeeded = refl
from_str-as_str failed = refl
from_str-as_str cancelled = refl

-- A text parses to a status exactly when it is that status's text.
pub from_str-eq-ok : (v : String) (s : JobStatus) → (from_str v ≡ ok s) ↔ (v ≡ as_str s)
unfolding from_str as_str
from_str-eq-ok v s = (forth v s, λ e. subst (λ t. from_str t ≡ ok s) (sym e) (from_str-as_str s))
  where
    forth : (v : String) (s : JobStatus) → from_str v ≡ ok s → v ≡ as_str s
    forth v s h = ground (
      arith,
      eq_iff v "queued",
      eq_iff v "running",
      eq_iff v "succeeded",
      eq_iff v "failed",
      eq_iff v "cancelled",
    )
