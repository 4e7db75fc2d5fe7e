-- ===== src/Worker/Claims/Since.antt =====
-- src/worker.rs: what a claim loop knows of the tables in each phase while nothing has stirred.
use pgspawn.Prelude.{◌≡◌, Bool, false, ◌||◌, Option, none, some, String, List, ok}
use pgspawn.Job.{Timestamp}
use pgspawn.Table.{Db}
use pgspawn.Table.Valid.{IsValid}
use pgspawn.Queue.Claim.{next_runnable_in}
use pgspawn.Queue.Notify.Calm.{IsCalm, IsCalm-trans}
use pgspawn.Worker.Config.{WorkerConfig}
use pgspawn.Worker.Loops.{claim_wait}
use pgspawn.Worker.Claims.{
  System, Phase, checking, armed, stopped, claiming, running, inspecting, looking, waiting,
  retrying,
}

module _ {Value : Type 0} where
  -- A notification has been sent, or may have been lost, since the loop was armed.
  abbrev pub stirred : System Value → Bool
  stirred s = s.woken || s.pending || s.missed

  -- From a valid table on all statements were calm.
  abbrev pub Since : Db Value → Db Value → Type 0
  Since old db = IsValid old × IsCalm old db

  pub Since-trans : (a : Db Value) {b c : Db Value} → IsCalm b c → Since a b → Since a c
  Since-trans a k h = (h.0, IsCalm-trans h.1 k)

  abbrev pub CalmLooked : Db Value → Option (Timestamp × Db Value) → Db Value → Type 0
  CalmLooked seen none db = Unit
  CalmLooked seen (some (i, d)) db = Since seen d × Since d db

  -- Since the snapshot of the claim, and since the look, all statements were calm.
  abbrev pub CalmSince : Phase Value → Db Value → Type 0
  CalmSince (claiming seen began) db = Since seen db
  CalmSince (inspecting seen) db = Since seen db
  CalmSince (looking seen look) db = CalmLooked seen (some look) db
  CalmSince (waiting seen looked from duration) db = CalmLooked seen looked db
  CalmSince _ db = Unit

  pub CalmSince-trans :
      (p : Phase Value) {db db' : Db Value} → IsCalm db db' → CalmSince p db → CalmSince p db'
  CalmSince-trans checking c h = tt
  CalmSince-trans armed c h = tt
  CalmSince-trans stopped c h = tt
  CalmSince-trans (claiming seen began) c h = Since-trans seen c h
  CalmSince-trans (running job) c h = tt
  CalmSince-trans (inspecting seen) c h = Since-trans seen c h
  CalmSince-trans (looking seen (i, d)) c h = (h.0, Since-trans d c h.1)
  CalmSince-trans (waiting seen none from duration) c h = tt
  CalmSince-trans (waiting seen (some (i, d)) from duration) c h = (h.0, Since-trans d c h.1)
  CalmSince-trans (retrying from) c h = tt

module _ (config : WorkerConfig) (names : List String) {Value : Type 0} where
  abbrev pub SleepsFor : Phase Value → Type 0
  SleepsFor (waiting seen (some (i, d)) from duration) =
      duration ≡ claim_wait (ok (next_runnable_in i names d)) config
  SleepsFor _ = Unit

  pub record Quiet (s : System Value) : Type 0 where
    pub valid : IsValid s.db
    pub calm : stirred s ≡ false → CalmSince s.phase s.db
    pub sleeps : SleepsFor s.phase
