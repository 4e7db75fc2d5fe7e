-- ===== src/Worker/Claims/Quiet.antt =====
-- src/worker.rs: what a claim loop can rely on while nothing has stirred: since its claim and its look at
-- the table no statement has given it work.
use pgspawn.Prelude.{
  ℕ, ◌≡◌, refl, subst, inl, inr, Bool, true, false, Option, none, some, String, List, arith,
  Bool-cases, Result, ok, err,
}
use pgspawn.Job.{Timestamp, Job, SqlError}
use pgspawn.Table.{Db}
use pgspawn.Table.Valid.{IsValid}
use pgspawn.Queue.Claim.Valid.{claim_next-IsValid}
use pgspawn.Queue.Steps.{Step-IsValid}
use pgspawn.Queue.Notify.Calm.{IsCalm, IsCalm-refl}
use pgspawn.Queue.Notify.Statements.{claim_next-IsCalm}
use pgspawn.Queue.Notify.Steps.{notified, Step-IsCalm}
use pgspawn.Worker.Config.{WorkerConfig}
use pgspawn.Worker.Run.{Reply, delivered, lost_before, lost_after}
use pgspawn.Worker.Shutdown.{Watch}
use pgspawn.Worker.Claims.{
  System, Phase, checking, stopped, claiming, Listener, listening, is_listening, arm, claim_result,
  inspect, stir, connect, receive, lose_connection,
}
use pgspawn.Worker.Claims.Moves.{
  Own, arms, begins, claims, finishes, looks, inspects, fails_to_inspect, wakes_up, times_out,
  retries, stops, Other, statement, notifies, elapses, requests_shutdown, drops_sender, connects,
  fails_to_connect, receives, reconnects, breaks, tries_again, closes, Run, here, own, other,
}
use pgspawn.Worker.Claims.Since.{
  stirred, Since, Since-trans, CalmSince, CalmSince-trans, SleepsFor, Quiet,
}

module _ (config : WorkerConfig) (names : List String) {Value : Type 0} where
  moved-Quiet :
      (s : System Value) (p : Phase Value)
      → (stirred s ≡ false → CalmSince p s.db)
      → SleepsFor config names p
      → Quiet config names s
      → Quiet config names (record s { phase = p })
  moved-Quiet s p c e q = record { valid = q.valid; calm = c; sleeps = e }

  woken-Quiet :
      (s : System Value) (listener : Listener) (pending : Bool)
      → Quiet config names s
      → Quiet config names (record s { listener = listener; woken = true; pending = pending })
  woken-Quiet s listener pending q = record {
    valid = q.valid;
    calm = λ z. absurd (ground (arith, z));
    sleeps = q.sleeps;
  }

  lost-Quiet :
      (s : System Value) (listener : Listener)
      → Quiet config names s
      → Quiet config names (lose_connection listener s)
  unfolding lose_connection
  lost-Quiet s listener q = record {
    valid = q.valid;
    calm = λ z. q.calm (ground (arith, z));
    sleeps = q.sleeps;
  }

  kept-Quiet :
      (s : System Value) (clock : Timestamp) (shutdown : Watch) (listener : Listener)
      → Quiet config names s
      → Quiet config names (record s { clock = clock; shutdown = shutdown; listener = listener })
  kept-Quiet s clock shutdown listener q = record {
    valid = q.valid;
    calm = q.calm;
    sleeps = q.sleeps;
  }

  -- The claim's answer, with the tables that it leaves.
  claimed-Quiet :
      (s : System Value) (seen : Db Value) (reply : Reply)
      (r : Result (Option (Job Value) × Db Value) SqlError)
      → Quiet config names s
      → (stirred s ≡ false → Since seen s.db)
      → ((j : Option (Job Value)) (db' : Db Value)
          → r ≡ ok (j, db')
          → IsValid db' × IsCalm s.db db')
      → Quiet config names (claim_result seen reply r s)
  unfolding claim_result
  claimed-Quiet s seen delivered (ok (some job, db')) q c f = record {
    valid = (f (some job) db' refl).0;
    calm = λ z. tt;
    sleeps = tt;
  }
  claimed-Quiet s seen delivered (ok (none, db')) q c f =
      let (v, k) = f none db' refl in
      record { valid = v; calm = λ z. Since-trans seen k (c z); sleeps = tt }
  claimed-Quiet s seen delivered (err e) q c f = record {
    valid = q.valid;
    calm = λ z. tt;
    sleeps = tt;
  }
  claimed-Quiet s seen lost_before r q c f = record { valid = q.valid; calm = λ z. tt; sleeps = tt }
  claimed-Quiet s seen lost_after (ok (j, db')) q c f = record {
    valid = (f j db' refl).0;
    calm = λ z. tt;
    sleeps = tt;
  }
  claimed-Quiet s seen lost_after (err e) q c f = record {
    valid = q.valid;
    calm = λ z. tt;
    sleeps = tt;
  }

  armed-Quiet : (s : System Value) → Quiet config names s → Quiet config names (arm s)
  unfolding arm
  armed-Quiet s q = elim (Bool-cases s.shutdown.value) [
    | inl t ↦ rw t (record { valid = q.valid; calm = λ z. tt; sleeps = tt })
    | inr t ↦ rw t (record { valid = q.valid; calm = λ z. tt; sleeps = tt })
  ]

  module _ (TimeZone : Type 0) (exp : ℕ → ℕ) (lock_owner : String) where
    Own-Quiet :
        {s s' : System Value}
        → Own TimeZone exp config names lock_owner s s'
        → Quiet config names s
        → Quiet config names s'
    unfolding inspect
    Own-Quiet {s = s} (arms e) q = armed-Quiet s q
    Own-Quiet {s = s} (begins e) q =
        moved-Quiet s (claiming s.db s.clock) (λ z. (q.valid, IsCalm-refl s.db)) tt q
    Own-Quiet {s = s} (claims seen began locked reply e) q =
        claimed-Quiet s seen reply _ q (λ z. subst (λ p. CalmSince p s.db) e (q.calm z))
          (λ j db' p. (
            claim_next-IsValid began locked seen lock_owner names s.db q.valid {r = j} {db' = db'}
                p,
            claim_next-IsCalm began locked seen lock_owner names s.db {r = j} {db' = db'} p,
          ))
    Own-Quiet {s = s} (finishes job e) q = moved-Quiet s checking (λ z. tt) tt q
    Own-Quiet {s = s} (looks seen e) q =
        moved-Quiet s _
          (λ z. (subst (λ p. CalmSince p s.db) e (q.calm z), (q.valid, IsCalm-refl s.db))) tt q
    Own-Quiet {s = s} (inspects seen (i, d) e) q =
        moved-Quiet s _ (λ z. subst (λ p. CalmSince p s.db) e (q.calm z)) refl q
    Own-Quiet {s = s} (fails_to_inspect seen look x e) q = moved-Quiet s _ (λ z. tt) tt q
    Own-Quiet {s = s} (wakes_up seen looked from duration e w) q =
        moved-Quiet s checking (λ z. tt) tt q
    Own-Quiet {s = s} (times_out seen looked from duration e w) q =
        moved-Quiet s checking (λ z. tt) tt q
    Own-Quiet {s = s} (retries from e w) q = moved-Quiet s checking (λ z. tt) tt q
    Own-Quiet {s = s} (stops e w) q = moved-Quiet s stopped (λ z. tt) tt q

    stir-Quiet :
        (s : System Value) (db' : Db Value) (sent : Bool)
        → Quiet config names s
        → IsValid db'
        → (sent ≡ false → IsCalm s.db db')
        → Quiet config names (stir sent (record s { db = db' }))
    unfolding stir
    stir-Quiet s db' false q v c = record {
      valid = v;
      calm = λ z. CalmSince-trans s.phase (c refl) (q.calm z);
      sleeps = q.sleeps;
    }
    stir-Quiet s db' true q v c = elim (Bool-cases (is_listening s.listener)) [
      | inl t ↦
          rw t (record { valid = v; calm = λ z. absurd (ground (arith, z)); sleeps = q.sleeps })
      | inr t ↦
          rw t (record { valid = v; calm = λ z. absurd (ground (arith, z)); sleeps = q.sleeps })
    ]

    Other-Quiet :
        {s s' : System Value}
        → Other TimeZone exp config names lock_owner s s'
        → Quiet config names s
        → Quiet config names s'
    unfolding connect receive
    Other-Quiet {s = s} (statement {db' = db'} step) q =
        stir-Quiet s db' (notified exp step) q (Step-IsValid TimeZone exp step q.valid)
          (Step-IsCalm exp step q.valid)
    Other-Quiet {s = s} notifies q = woken-Quiet s s.listener s.pending q
    Other-Quiet {s = s} (elapses t h) q = kept-Quiet s _ _ _ q
    Other-Quiet {s = s} requests_shutdown q = kept-Quiet s _ _ _ q
    Other-Quiet {s = s} drops_sender q = kept-Quiet s _ _ _ q
    Other-Quiet {s = s} (connects d e) q = woken-Quiet s listening s.pending q
    Other-Quiet {s = s} (fails_to_connect d e) q = kept-Quiet s _ _ _ q
    Other-Quiet {s = s} (receives e p) q = woken-Quiet s s.listener false q
    Other-Quiet {s = s} (reconnects e) q = lost-Quiet s _ q
    Other-Quiet {s = s} (breaks e) q = lost-Quiet s _ q
    Other-Quiet {s = s} (tries_again d e) q = kept-Quiet s _ _ _ q
    Other-Quiet {s = s} (closes e) q = lost-Quiet s _ q

    pub Run-Quiet :
        {s s' : System Value}
        → Run TimeZone exp config names lock_owner s s'
        → Quiet config names s
        → Quiet config names s'
    Run-Quiet here q = q
    Run-Quiet (own r m) q = Own-Quiet m (Run-Quiet r q)
    Run-Quiet (other r m) q = Other-Quiet m (Run-Quiet r q)
