-- ===== src/Examples/Service.antt =====
-- A job whose worker dies: its message is delivered again while the job is still running, and dropped;
-- then the job is reclaimed.
use queryforge.Prelude.{some, refl, true, [], ◌∷◌, List, Bytes}
use queryforge.Prelude.Int.{ℤ}
use queryforge.Prelude.Float.{thousandths}
use queryforge.Store.{
  Job, retrying, lease_expired, up, claim_job, after_claim, job_by_id, reclaim_stale,
}
use queryforge.Optimizer.Indexes.{IndexExperiment}
use queryforge.Queue.{jobs, fetch}
use queryforge.Worker.{World, handle}
use queryforge.Worker.Service.{Event, deliver, die, reclaim, forward, happen, happen_all}
use queryforge.Worker.Service.Waiting.{IsStranded}
use queryforge.Worker.Service.Stranded.{happen_all-IsStranded}
use queryforge.Examples.Data.{job, request}
use queryforge.Examples.Messages.{fate, refused_run}

abbrev waiting_job : World ℤ Bytes
waiting_job = record { jobs = job ∷ []; history = []; messages = (jobs, request) ∷ [] }

abbrev crash : List (Event ℤ Bytes (IndexExperiment ℤ))
crash = die up 50 ∷ deliver true (fate refused_run) ∷ reclaim up 60 500 ∷ []

-- The row that is left: it has had one attempt.
abbrev reclaimed_row : Job ℤ Bytes
reclaimed_row = record job {
  status = retrying;
  attempts = 1;
  started_at = some 50;
  last_error = lease_expired;
  updated_at = 500;
}

crash-IsStranded : IsStranded 7 reclaimed_row (happen_all thousandths crash waiting_job)
unfolding happen_all happen fetch handle claim_job after_claim job_by_id reclaim_stale
crash-IsStranded = record { waiting = record { found = refl; waits = refl }; unnamed = tt }

abbrev pub later : List (Event ℤ Bytes (IndexExperiment ℤ))
later = deliver true (fate refused_run) ∷ forward 15 true up ∷ reclaim up 60 900 ∷ []

happen_all-IsStranded_example :
    IsStranded 7 reclaimed_row
      (happen_all thousandths later (happen_all thousandths crash waiting_job))
happen_all-IsStranded_example =
    happen_all-IsStranded 7 reclaimed_row thousandths later
      (happen_all thousandths crash waiting_job) crash-IsStranded
