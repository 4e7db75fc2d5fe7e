-- ===== src/Worker/Claims/Stops.antt =====
-- src/worker.rs: a claim loop after the shutdown of its worker.
use pgspawn.Prelude.{
  ℕ, suc, ◌+◌, ◌≤◌, ◌<◌, ◌≡◌, refl, sym, subst, ◌∙◌, ap, ◌⊎◌, inl, inr, true, false, Option, none,
  some, String, List, arith, Result, ok, err,
}
use pgspawn.Job.{Job, SqlError}
use pgspawn.Table.{Db}
use pgspawn.Queue.Claim.{claim_next}
use pgspawn.Worker.Config.{WorkerConfig}
use pgspawn.Worker.Run.{Reply, delivered, lost_before, lost_after}
use pgspawn.Worker.Claims.{
  System, Phase, checking, armed, stopped, claiming, running, inspecting, looking, waiting,
  retrying, is_asleep, arm, claim_result, inspect, stir, connect, receive, lose_connection,
}
use pgspawn.Worker.Claims.Moves.{
  Own, arms, begins, claims, finishes, looks, inspects, fails_to_inspect, wakes_up, times_out,
  retries, stops, Other, statement, notifies, elapses, requests_shutdown, drops_sender, connects,
  fails_to_connect, receives, reconnects, breaks, tries_again, closes, Run, here, own, other,
}

module _ {Value : Type 0} where
  -- How many moves the loop has left at most once the worker shuts down.
  abbrev pub moves_left : Phase Value → ℕ
  moves_left stopped = 0
  moves_left checking = 1
  moves_left (waiting seen looked from duration) = 2
  moves_left (retrying from) = 2
  moves_left (running job) = 2
  moves_left (looking seen look) = 3
  moves_left (inspecting seen) = 4
  moves_left (claiming seen began) = 5
  moves_left armed = 6

  at_most : (p : Phase Value) → moves_left p ≤ 6
  at_most p = ground arith

  uses : {n : ℕ} {p q : Phase Value} → p ≡ q → n < moves_left q → n < moves_left p
  uses {n} e h = subst (λ p. n < moves_left p) (sym e) h

  asleep_moves : (p : Phase Value) → is_asleep p ≡ true → 0 < moves_left p
  asleep_moves p h = ground arith

  claim_shutdown :
      (seen : Db Value) (reply : Reply) (r : Result (Option (Job Value) × Db Value) SqlError)
      (s : System Value)
      → (claim_result seen reply r s).shutdown ≡ s.shutdown
  unfolding claim_result
  claim_shutdown seen reply r s = ground arith

  after_claim :
      (seen : Db Value) (reply : Reply) (r : Result (Option (Job Value) × Db Value) SqlError)
      (s : System Value)
      → moves_left (claim_result seen reply r s).phase ≤ 4
  unfolding claim_result
  after_claim seen delivered (ok (some job, db')) s = omega arith
  after_claim seen delivered (ok (none, db')) s = omega arith
  after_claim seen delivered (err e) s = omega arith
  after_claim seen lost_before r s = omega arith
  after_claim seen lost_after (ok (j, db')) s = omega arith
  after_claim seen lost_after (err e) s = omega arith

  after_arm : (s : System Value) → s.shutdown.value ≡ true → (arm s).phase ≡ stopped
  unfolding arm
  after_arm s h = rw h refl

module _ (TimeZone : Type 0) (exp : ℕ → ℕ) (config : WorkerConfig) (names : List String)
    (lock_owner : String) {Value : Type 0} where
  abbrev pub own_moves : {s s' : System Value} → Run TimeZone exp config names lock_owner s s' → ℕ
  own_moves here = 0
  own_moves (own r m) = suc (own_moves r)
  own_moves (other r m) = own_moves r

  -- Every move of the loop uses one up.
  Own-moves_left :
      {s s' : System Value}
      → Own TimeZone exp config names lock_owner s s'
      → s.shutdown.value ≡ true
      → moves_left s'.phase < moves_left s.phase
  unfolding inspect
  Own-moves_left {s = s} (arms e) h =
      uses e (subst (λ p. moves_left p < 1) (sym (after_arm s h)) (omega arith))
  Own-moves_left (begins e) h = uses e (omega arith)
  Own-moves_left {s = s} (claims seen began locked reply e) h =
      let bound = after_claim seen reply (claim_next began locked seen lock_owner names s.db) s in
      uses e (omega (arith, bound))
  Own-moves_left (finishes job e) h = uses e (omega arith)
  Own-moves_left (looks seen e) h = uses e (omega arith)
  Own-moves_left (inspects seen (i, d) e) h = uses e (omega arith)
  Own-moves_left (fails_to_inspect seen look x e) h = uses e (omega arith)
  Own-moves_left (wakes_up seen looked from duration e w) h = uses e (omega arith)
  Own-moves_left (times_out seen looked from duration e w) h = uses e (omega arith)
  Own-moves_left (retries from e w) h = uses e (omega arith)
  Own-moves_left {s = s} (stops e w) h = asleep_moves s.phase e

  -- No move takes a shutdown back.
  Own-shutdown :
      {s s' : System Value}
      → Own TimeZone exp config names lock_owner s s'
      → s'.shutdown ≡ s.shutdown
  unfolding inspect arm
  Own-shutdown {s = s} (arms e) = ground arith
  Own-shutdown (begins e) = refl
  Own-shutdown {s = s} (claims seen began locked reply e) =
      claim_shutdown seen reply (claim_next began locked seen lock_owner names s.db) s
  Own-shutdown (finishes job e) = refl
  Own-shutdown (looks seen e) = refl
  Own-shutdown (inspects seen (i, d) e) = refl
  Own-shutdown (fails_to_inspect seen look x e) = refl
  Own-shutdown (wakes_up seen looked from duration e w) = refl
  Own-shutdown (times_out seen looked from duration e w) = refl
  Own-shutdown (retries from e w) = refl
  Own-shutdown (stops e w) = refl

  Other-keeps :
      {s s' : System Value}
      → Other TimeZone exp config names lock_owner s s'
      → s.shutdown.value ≡ true
      → (s'.phase ≡ s.phase) × (s'.shutdown.value ≡ true)
  unfolding stir connect receive lose_connection
  Other-keeps (statement step) h = (ground arith, ground arith)
  Other-keeps notifies h = (refl, h)
  Other-keeps (elapses t e) h = (refl, h)
  Other-keeps requests_shutdown h = (refl, refl)
  Other-keeps drops_sender h = (refl, h)
  Other-keeps (connects d e) h = (refl, h)
  Other-keeps (fails_to_connect d e) h = (refl, h)
  Other-keeps (receives e p) h = (refl, h)
  Other-keeps (reconnects e) h = (refl, h)
  Other-keeps (breaks e) h = (refl, h)
  Other-keeps (tries_again d e) h = (refl, h)
  Other-keeps (closes e) h = (refl, h)

  Run-moves_left :
      {s s' : System Value} (r : Run TimeZone exp config names lock_owner s s')
      → s.shutdown.value ≡ true
      → (own_moves r + moves_left s'.phase ≤ moves_left s.phase) × (s'.shutdown.value ≡ true)
  Run-moves_left here h = (omega arith, h)
  Run-moves_left (own r m) h =
      let (so_far, still) = Run-moves_left r h in
      let used = Own-moves_left m still in
      (omega (arith, so_far, used), ap (λ w. w.value) (Own-shutdown m) ∙ still)
  Run-moves_left {s = s} (other r m) h =
      let (so_far, still) = Run-moves_left r h in
      let (same, after) = Other-keeps m still in
      (subst (λ p. own_moves r + moves_left p ≤ moves_left s.phase) (sym same) so_far, after)

  abbrev pub Next : System Value → Type 0
  Next s = (s' : System Value) × Own TimeZone exp config names lock_owner s s'

  Next-unless_stopped :
      (s : System Value) (p : Phase Value)
      → s.phase ≡ p
      → s.shutdown.value ≡ true
      → (p ≡ stopped) ⊎ Next s
  Next-unless_stopped s stopped e h = inl refl
  Next-unless_stopped s checking e h = inr (_, arms e)
  Next-unless_stopped s armed e h = inr (_, begins e)
  Next-unless_stopped s (claiming seen began) e h =
      inr (_, claims seen began (λ k. false) delivered e)
  Next-unless_stopped s (running job) e h = inr (_, finishes job e)
  Next-unless_stopped s (inspecting seen) e h = inr (_, looks seen e)
  Next-unless_stopped s (looking seen look) e h = inr (_, inspects seen look e)
  Next-unless_stopped s (waiting seen looked from duration) e h =
      inr (_, stops (subst (λ p. is_asleep p ≡ true) (sym e) refl) (ground (arith, h)))
  Next-unless_stopped s (retrying from) e h =
      inr (_, stops (subst (λ p. is_asleep p ≡ true) (sym e) refl) (ground (arith, h)))

  -- A claim loop stops after a shutdown. Whatever the others do from then on, in whatever order, the loop
  -- makes six moves at most and uses one up with each, so it claims and runs one more job at most; and
  -- until it has stopped there is a move that it can make, for which it waits for nothing but the answer
  -- of a statement or the end of the job that it runs.
  pub Run-stops :
      {s s' : System Value} (r : Run TimeZone exp config names lock_owner s s')
      → s.shutdown.value ≡ true
      → (own_moves r + moves_left s'.phase ≤ moves_left s.phase)
        × (moves_left s.phase ≤ 6)
        × ((s'.phase ≡ stopped) ⊎ Next s')
  Run-stops {s = s} {s' = s'} r h =
      let (bound, still) = Run-moves_left r h in
      (bound, at_most s.phase, Next-unless_stopped s' s'.phase refl still)
