-- ===== src/Worker.antt =====
-- cmd/worker/main.go: a consumer's handling of one message. The optimizer's run is an argument by
-- its outcome, and so is what becomes of each statement and each publication.
pub mod Handle
pub mod Failure
pub mod Success
pub mod Service
use queryforge.Prelude.{
  ℕ, ◌+◌, ◌-◌, Bool, true, false, Option, none, some, List, [], ◌∷◌, ◌++◌, Bytes, codes,
  if◌then◌else◌,
}
use queryforge.Store.{
  Job, Jobs, Error, not_found, already_claimed, database, Result, ok, err, Link, up, down, lost,
  claim_job, complete_job, mark_failure,
}
use queryforge.Prelude.Float.{FloatOps}
use queryforge.Sql.{Statement, Parsed, parsed, refused}
use queryforge.Optimizer
use queryforge.Optimizer.Pipeline.{is_accepted, Report, RunError, Ran, report, aborted}
use queryforge.Queue.{OptimizeRequest, Topic, jobs, dead, retry, retry_topic, Message, publish}

-- A row of query_runs, without its number and its time.
pub record Run (F : Type 0) : Type 0 where
  pub job_id : ℕ
  pub fingerprint : Bytes
  pub role : Bytes
  pub sql : Bytes
  pub median_ms : F
  pub min_ms : F
  pub max_ms : F
  pub total_cost : F
  pub row_count : ℕ
  pub runs : ℕ

-- What the handling of one message meets: the fate of each statement and publication, the outcome
-- of the optimizer's run for the job's SQL, how its error reads, and json.Marshal, which may refuse
-- a report.
pub record Fate (F J X : Type 0) : Type 0 where
  pub claim_link : Link
  pub lookup_link : Link
  pub claimed_at : ℕ
  pub outcome : Bytes → Ran (Report F X)
  pub error_text : RunError → Bytes
  pub marshal : Report F X → Option J
  pub parse : Bytes → Parsed Statement
  pub measurement_runs : ℕ
  pub history_link : ℕ → Link
  pub elapsed_ms : ℕ
  pub store_link : Link
  pub stored_at : ℕ
  pub retry_link : Link
  pub dead_link : Link

-- The tables and the topics.
pub record World (F J : Type 0) : Type 0 where
  pub jobs : Jobs F J
  pub history : List (Run F)
  pub messages : List Message

module _ {F J X : Type 0} (fl : FloatOps F) (fate : Fate F J X) where
  -- The end of scheduleRetry: the dead letters.
  unfoldable pub dead_letter : OptimizeRequest → World F J → World F J
  dead_letter next w = record w {
    messages = (publish fate.dead_link dead (record next { not_before = none }) w.messages).1;
  }

  -- A publication to a retry tier that fails goes on to the dead letters.
  abbrev pub or_dead_letter : OptimizeRequest → World F J → Bool × List Message → World F J
  or_dead_letter next w (true, ms) = record w { messages = ms }
  or_dead_letter next w (false, ms) = dead_letter next (record w { messages = ms })

  unfoldable pub send_to_tier : OptimizeRequest → World F J → Option (Topic × ℕ) → World F J
  unfolding dead_letter
  send_to_tier next w none = dead_letter next w
  send_to_tier next w (some (topic, delay)) = or_dead_letter next w (
      publish fate.retry_link topic (record next { not_before = some (fate.stored_at + delay) })
        w.messages)

  -- `willRetry`, which is false beside an error.
  abbrev pub will_retry : Result Bool → Bool
  will_retry (ok b) = b
  will_retry (err e) = false

  -- scheduleRetry
  unfoldable pub schedule_retry : Job F J → OptimizeRequest → Bytes → World F J → World F J
  unfolding send_to_tier
  schedule_retry job req cause w =
      let (r, rows) = mark_failure fate.store_link job.id cause fate.stored_at w.jobs in
      let next : OptimizeRequest = record req { attempt = job.attempts + 1; last_error = cause } in
      let marked : World F J = record w { jobs = rows } in
      if will_retry r
      then send_to_tier next marked (retry_topic job.attempts)
      else dead_letter next marked

  -- RecordRun number `i` of a job; its error is dropped.
  abbrev pub record_run : ℕ → Run F → List (Run F) → List (Run F)
  record_run i row rows = elim (fate.history_link i) [ down ↦ rows | _ ↦ rows ++ row ∷ [] ]

  abbrev pub fingerprint_of : Parsed Statement → Bytes
  fingerprint_of (parsed st) = st.fingerprint
  fingerprint_of (refused why) = []

  -- The row of an accepted candidate.
  abbrev pub candidate_row : Job F J → Optimizer.Result F → Run F
  candidate_row job c = record {
    job_id = job.id;
    fingerprint = fingerprint_of (fate.parse c.candidate.sql);
    role = codes "candidate";
    sql = c.candidate.sql;
    median_ms = c.candidate_median_ms;
    min_ms = fl.lit 0;
    max_ms = fl.lit 0;
    total_cost = c.candidate_cost;
    row_count = c.row_count;
    runs = fate.measurement_runs;
  }

  -- The rows of the accepted candidates; the first that is written is number `i` of the job.
  unfoldable pub record_candidates :
      ℕ → Job F J → List (Optimizer.Result F) → List (Run F) → List (Run F)
  record_candidates i job [] rows = rows
  record_candidates i job (c ∷ cs) rows =
      let taken = is_accepted c.verdict in
      record_candidates (if taken then i + 1 else i) job cs
        (if taken then record_run i (candidate_row job c) rows else rows)

  -- recordRuns
  unfoldable pub record_runs : Job F J → Report F X → List (Run F) → List (Run F)
  unfolding record_candidates
  record_runs job rep rows = record_candidates 1 job rep.candidates (
      record_run 0
        (record {
          job_id = job.id;
          fingerprint = job.fingerprint;
          role = codes "baseline";
          sql = job.sql;
          median_ms = rep.baseline.measured.median_ms;
          min_ms = rep.baseline.measured.min_ms;
          max_ms = rep.baseline.measured.max_ms;
          total_cost = rep.baseline.plan.total_cost;
          row_count = rep.baseline.checksum.row_count;
          runs = fate.measurement_runs;
        })
        rows)

  abbrev pub best_ms : Report F X → F
  best_ms rep = elim rep.best [
    | none ↦ rep.baseline.measured.median_ms
    | some b ↦ b.candidate_median_ms
  ]

  abbrev pub best_gain : Report F X → F
  best_gain rep = elim rep.best [ none ↦ fl.lit 0 | some b ↦ b.improvement_pct ]

  -- CompleteJob with the marshalling in front of it; its error is logged.
  unfoldable pub complete : Job F J → Report F X → Option J → World F J → World F J
  complete job rep none w = w
  complete job rep (some raw) w = record w {
    jobs =
        (complete_job fate.store_link job.id raw rep.baseline.measured.median_ms (best_ms rep)
          (best_gain rep) fate.elapsed_ms fate.stored_at w.jobs).1;
  }

  -- The rest of handle after a claim that succeeded.
  unfoldable pub finish : Job F J → OptimizeRequest → Ran (Report F X) → World F J → World F J
  unfolding schedule_retry record_runs complete
  finish job req (aborted why) w = schedule_retry job req (fate.error_text why) w
  finish job req (report rep) w =
      complete job rep (fate.marshal rep) (record w { history = record_runs job rep w.history })

  -- After the claim: a duplicate, an unknown job and an error of the database are dropped.
  abbrev pub after_claim : OptimizeRequest → Result (Job F J) → World F J → World F J
  after_claim req (err e) w = w
  after_claim req (ok job) w = finish job req (fate.outcome job.sql) w

  -- handle
  unfoldable pub handle : OptimizeRequest → World F J → World F J
  unfolding finish
  handle req w =
      let (r, rows) =
        claim_job fate.claim_link fate.lookup_link req.job_id fate.claimed_at w.jobs in
      after_claim req r (record w { jobs = rows })
