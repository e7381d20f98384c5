-- ===== src/Examples/Messages.antt =====
-- The handling of messages of a job that fails, succeeds or cannot be claimed.
use queryforge.Prelude.{get_elem?, ℕ, ◌≡◌, refl, false, some, none, [], ◌∷◌, codes, Bytes, arith}
use queryforge.Prelude.Int.{ℤ, pos}
use queryforge.Prelude.Float.{thousandths}
use queryforge.Store.{Job, up, failed, retrying, running}
use queryforge.Sql.{unparseable}
use queryforge.Optimizer.Indexes.{IndexExperiment}
use queryforge.Optimizer.Pipeline.{Report, Ran, aborted, report, does_not_parse}
use queryforge.Queue.{retry, dead}
use queryforge.Worker.{Fate, World, handle}
use queryforge.Worker.Handle.{AllUp, handle-ignores-unclaimable}
use queryforge.Worker.Failure.{
  Settled, handle-retries, handle-gives-up, handle-strands-beyond-ladder,
}
use queryforge.Worker.Success.{Reported, handle-completes}
use queryforge.Examples.Data.{job, request, base, parse, original}

-- A report without candidates.
abbrev outcome : Report ℤ (IndexExperiment ℤ)
outcome = record {
  original_sql = original;
  fingerprint = codes "f";
  schema = record { tables = [] };
  findings = [];
  baseline = base;
  candidates = [];
  indexes = [];
  best = none;
  llm_used = false;
}

-- Everything goes through, and the run has an outcome.
abbrev pub fate : Ran (Report ℤ (IndexExperiment ℤ)) → Fate ℤ Bytes (IndexExperiment ℤ)
fate ran = record {
  claim_link = up;
  lookup_link = up;
  claimed_at = 50;
  outcome = λ sql. ran;
  error_text = λ why. codes "failed";
  marshal = λ rep. some (codes "{}");
  parse = parse;
  measurement_runs = 5;
  history_link = λ i. up;
  elapsed_ms = 4;
  store_link = up;
  stored_at = 60;
  retry_link = up;
  dead_link = up;
}

abbrev pub refused_run : Ran (Report ℤ (IndexExperiment ℤ))
refused_run = aborted (does_not_parse (unparseable []))

abbrev all_up : (ran : Ran (Report ℤ (IndexExperiment ℤ))) → AllUp (fate ran)
all_up ran = record { claim_up = refl; store_up = refl; retry_up = refl; dead_up = refl }

-- A table with the job after `attempts` of at most `limit` attempts.
abbrev with_job : ℕ → ℕ → World ℤ Bytes
with_job attempts limit = record {
  jobs = record job { attempts = attempts; max_attempts = pos limit; status = retrying } ∷ [];
  history = [];
  messages = [];
}

abbrev job_after : ℕ → ℕ → Job ℤ Bytes
job_after attempts limit = record job {
  attempts = attempts;
  max_attempts = pos limit;
  status = retrying;
}

handle-retries_example :
    (d : ℕ) × (get_elem? (15 ∷ 120 ∷ []) 1 ≡ some d)
    × Settled thousandths
        (fate refused_run)
        []
        (handle thousandths (fate refused_run) request (with_job 1 3))
        7
        (retry d)
        retrying
handle-retries_example =
    handle-retries thousandths (fate refused_run) request (with_job 1 3) (job_after 1 3)
      (does_not_parse (unparseable [])) (all_up refused_run) refl refl refl refl refl

handle-gives-up_example :
    Settled thousandths
      (fate refused_run)
      []
      (handle thousandths (fate refused_run) request (with_job 2 3))
      7
      dead
      failed
handle-gives-up_example =
    handle-gives-up thousandths (fate refused_run) request (with_job 2 3) (job_after 2 3)
      (does_not_parse (unparseable [])) (all_up refused_run) refl refl refl refl

handle-strands-beyond-ladder_example :
    Settled thousandths
      (fate refused_run)
      []
      (handle thousandths (fate refused_run) request (with_job 2 5))
      7
      dead
      retrying
handle-strands-beyond-ladder_example =
    handle-strands-beyond-ladder thousandths (fate refused_run) request (with_job 2 5)
      (job_after 2 5) (does_not_parse (unparseable [])) (all_up refused_run) refl refl refl
      (omega arith) refl

handle-completes_example :
    Reported thousandths
      (fate (report outcome))
      (handle thousandths (fate (report outcome)) request (with_job 0 3))
      7
      (codes "{}")
      outcome
    × ((handle thousandths (fate (report outcome)) request (with_job 0 3)).messages ≡ [])
handle-completes_example =
    handle-completes thousandths (fate (report outcome)) request (with_job 0 3) (job_after 0 3)
      outcome (codes "{}") (all_up (report outcome)) refl refl refl refl

abbrev held : World ℤ Bytes
held = record {
  jobs = record job { status = running; attempts = 1 } ∷ [];
  history = [];
  messages = [];
}

handle-ignores-unclaimable_example : handle thousandths (fate refused_run) request held ≡ held
handle-ignores-unclaimable_example =
    handle-ignores-unclaimable thousandths (fate refused_run) request held (refl, tt)
