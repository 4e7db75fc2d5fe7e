-- ===== src/Worker/Shutdown.antt =====
-- src/worker.rs: the watch channel that tells the loops and the handlers of a shutdown, and the functions
-- that a handler asks. A task-local value is an argument: `none` outside a handler.
use pgspawn.Prelude.{
  Bool, true, false, ◌||◌, Option, none, some, List, [], ◌∷◌, if◌then◌else◌, ◌≡◌, refl, any_by,
  arith,
}
use pgspawn.Job.{Timestamp}

-- The channel as a receiver finds it: its value, and whether the sender has been dropped.
pub record Watch : Type 0 where
  pub value : Bool
  pub closed : Bool

-- `changed.is_err() || *shutdown.borrow()`, once `changed` has returned.
abbrev pub tells_stop : Watch → Bool
tells_stop w = w.closed || w.value

unfoldable pub is_shutting_down : Option Watch → Bool
is_shutting_down none = false
is_shutting_down (some shutdown) = shutdown.value

-- The loop of `shutdown_requested`, told by the states of the channel at its start and at each return of
-- `changed`: whether it resolves at one of them. A closed channel makes `changed` fail.
unfoldable pub awaits_stop : List Watch → Bool
awaits_stop [] = false
awaits_stop (w ∷ ws) =
    let rest = awaits_stop ws in if w.value then true else if w.closed then true else rest

unfoldable pub shutdown_requested : Option (List Watch) → Bool
unfolding awaits_stop
shutdown_requested none = false
shutdown_requested (some states) = awaits_stop states

abbrev pub worker_started_at : (started_at : Option Timestamp) → Option Timestamp
worker_started_at started_at = started_at

-- In a handler it resolves exactly when a state tells a stop.
pub shutdown_requested_lem :
    (states : List Watch) → shutdown_requested (some states) ≡ any_by tells_stop states
unfolding shutdown_requested awaits_stop
shutdown_requested_lem [] = refl
shutdown_requested_lem (w ∷ ws) = ground (arith, shutdown_requested_lem ws)
