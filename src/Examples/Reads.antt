-- ===== src/Examples/Reads.antt =====
-- The theorems on reading the queue at the example table.
use pgspawn.Prelude.{◌≡◌, ok, Bool, List, String, length, min, Pairwise, count_by, ◌++◌}
use pgspawn.Prelude.Int.{pos}
use pgspawn.Job.{Job}
use pgspawn.Table.Lookup.{find_id}
use pgspawn.Queue.Read.{get, recent}
use pgspawn.Queue.Read.Rows.{get-find_id}
use pgspawn.Queue.Read.Recent.{IsNewer, recent-newest}
use pgspawn.Examples.Jobs.{some_jobs}

get-find_id_example : get 3 some_jobs ≡ ok (find_id 3 some_jobs)
get-find_id_example = get-find_id 3 some_jobs

recent-newest_example :
    (js rest : List (Job String)) × (recent (pos 2) some_jobs ≡ ok js)
    × (length js ≡ min 2 (length some_jobs.jobs))
    × Pairwise IsNewer (js ++ rest)
    × ((p : Job String → Bool) → count_by p (js ++ rest) ≡ count_by p some_jobs.jobs)
recent-newest_example = recent-newest 2 some_jobs
