-- ===== src/Api.antt =====
-- internal/api/server.go: the handlers of the HTTP surface. A handler answers a status and a body and
-- may change the tables and the topics; reading the request's JSON is an argument by its outcome.
pub mod Create
pub mod Stranded
use queryforge.Prelude.{
  ℕ, Bool, true, false, ◌++◌, Option, none, some, List, [], ◌∷◌, Bytes, codes, map, length,
  is_empty, if◌then◌else◌,
}
use queryforge.Prelude.Float.{FloatOps}
use queryforge.Prelude.Int.{ℤ}
use queryforge.Store.{
  Job, Jobs, Status, queued, running, retrying, succeeded, failed, Error, not_found,
  already_claimed, database, Result, ok, err, Link, create_job, job_by_id,
}
use queryforge.Store.Listing.{list_jobs}
use queryforge.Engine.{Outcome, done, fault}
use queryforge.Engine.Open.{dialect_for_dsn}
use queryforge.Sql.{
  Statement, qualified, ParseError, not_read_only, unparseable, Parsed, parsed, refused,
}
use queryforge.Queue.{OptimizeRequest, jobs, Message, publish}
use queryforge.Worker.{World}

-- The fields of the configuration that the handlers read.
pub record Config : Type 0 where
  pub target_dialect : Bytes
  pub target_dsn : Bytes
  pub max_delivery_attempt : ℤ

abbrev or_postgres : Option Bytes → Bytes
or_postgres none = codes "postgres"
or_postgres (some d) = d

-- dialect
unfoldable pub dialect : Config → Bytes
unfolding dialect_for_dsn
dialect cfg =
    if is_empty cfg.target_dialect
    then or_postgres (dialect_for_dsn cfg.target_dsn)
    else cfg.target_dialect

pub record CreateRequest : Type 0 where
  pub sql : Bytes
  pub idempotency_key : Bytes

pub record CreateResponse : Type 0 where
  pub job_id : ℕ
  pub status : Status
  pub fingerprint : Bytes
  pub deduped : Bool

pub record Analysis : Type 0 where
  pub fingerprint : Bytes
  pub normalized : Bytes
  pub tables : List Bytes
  pub output_columns : List Bytes
  pub select_star : Bool
  pub has_order_by : Bool
  pub has_limit : Bool

-- A job list is with its count.
pub data Body (F J : Type 0) : Type 0 where
  error_text : Bytes → Body F J
  created : CreateResponse → Body F J
  analysis : Analysis → Body F J
  job : Job F J → Body F J
  job_list : List (Job F J) → ℕ → Body F J

pub record Response (F J : Type 0) : Type 0 where
  pub status : ℕ
  pub body : Body F J

-- What becomes of the statements and the publication of one request, the UUID that is drawn, and the
-- time.
pub record Conditions : Type 0 where
  pub insert_link : Link
  pub lookup_link : Link
  pub publish_link : Link
  pub fresh : ℕ
  pub now : ℕ

abbrev error_message : ParseError → Bytes
error_message (not_read_only why) = why
error_message (unparseable why) = why

-- 422 for a statement that is not read-only, 400 for one that does not parse.
abbrev pub parse_status : ParseError → ℕ
parse_status (not_read_only why) = 422
parse_status (unparseable why) = 400

abbrev pub key_of : CreateRequest → Statement → Bytes
key_of req st = if is_empty req.idempotency_key then codes "sql:" ++ st.sql else req.idempotency_key

abbrev analysis_of : Statement → Analysis
analysis_of st = record {
  fingerprint = st.fingerprint;
  normalized = st.normalized;
  tables = map qualified st.tables;
  output_columns = st.output_cols;
  select_star = st.select_star;
  has_order_by = st.has_order_by;
  has_limit = st.has_limit;
}

module _ {F J : Type 0} where
  -- writeError
  abbrev pub write_error : ℕ → Bytes → Response F J
  write_error status text = record { status = status; body = error_text text }

  abbrev pub write_created : ℕ → Job F J → Bool → Response F J
  write_created status j deduped = record {
    status = status;
    body = created (record {
      job_id = j.id;
      status = j.status;
      fingerprint = j.fingerprint;
      deduped = deduped;
    });
  }

  -- The message of a job that was created.
  abbrev pub first_request : ℕ → Job F J → OptimizeRequest
  first_request now j = record {
    job_id = j.id;
    sql = j.sql;
    attempt = 1;
    not_before = none;
    last_error = [];
    enqueued_at = now;
  }

module _ {F J : Type 0} (fl : FloatOps F) (cfg : Config)
    (parse : Bytes → Bytes → Parsed Statement) where
  -- The job that is handed to CreateJob; the fields that are not set are zero.
  abbrev pub submitted : CreateRequest → Statement → Job F J
  submitted req st = record {
    id = 0;
    idempotency_key = key_of req st;
    sql = st.sql;
    fingerprint = st.fingerprint;
    status = queued;
    attempts = 0;
    max_attempts = cfg.max_delivery_attempt;
    last_error = [];
    report = none;
    baseline_ms = fl.lit 0;
    best_ms = fl.lit 0;
    improvement_pct = fl.lit 0;
    duration_ms = 0;
    created_at = 0;
    updated_at = 0;
    started_at = none;
    finished_at = none;
  }

  abbrev pub after_publish : Job F J → World F J → Bool × List Message → Response F J × World F J
  after_publish j w (true, ms) = (write_created 202 j false, record w { messages = ms })
  after_publish j w (false, ms) = (
    write_error 503 (codes "job recorded but could not be queued; it will be retried"),
    record w { messages = ms },
  )

  -- The end of createOptimization, by what CreateJob answered.
  unfoldable pub after_create :
      Conditions → World F J → Result (Job F J × Bool) → Response F J × World F J
  after_create c w (err e) = (write_error 500 (codes "could not create job"), w)
  after_create c w (ok (j, false)) = (write_created 200 j true, w)
  after_create c w (ok (j, true)) =
      after_publish j w (publish c.publish_link jobs (first_request c.now j) w.messages)

  unfoldable pub create_parsed :
      Conditions → CreateRequest → World F J → Parsed Statement → Response F J × World F J
  unfolding after_create create_job
  create_parsed c req w (refused e) = (write_error (parse_status e) (error_message e), w)
  create_parsed c req w (parsed st) =
      let (r, s') =
        create_job fl c.insert_link c.lookup_link (submitted req st) c.fresh c.now w.jobs in
      after_create c (record w { jobs = s' }) r

  -- createOptimization
  unfoldable pub create_optimization :
      Conditions → Outcome CreateRequest → World F J → Response F J × World F J
  unfolding create_parsed dialect
  create_optimization c (fault e) w = (write_error 400 (codes "malformed JSON body: " ++ e), w)
  create_optimization c (done req) w = create_parsed c req w (parse (dialect cfg) req.sql)

  abbrev analyze_parsed : Parsed Statement → Response F J
  analyze_parsed (refused e) = write_error (parse_status e) (error_message e)
  analyze_parsed (parsed st) = record { status = 200; body = analysis (analysis_of st) }

  -- analyzeOnly
  unfoldable pub analyze_only : Outcome CreateRequest → Response F J
  unfolding dialect qualified
  analyze_only (fault e) = write_error 400 (codes "malformed JSON body")
  analyze_only (done req) = analyze_parsed (parse (dialect cfg) req.sql)

module _ {F J : Type 0} (database_text : Bytes) where
  abbrev found_job : Result (Job F J) → Response F J
  found_job (ok j) = record { status = 200; body = job j }
  found_job (err not_found) = write_error 404 (codes "no such job")
  found_job (err e) = write_error 500 database_text

  -- getOptimization; the id is that of the path, if it is a UUID.
  unfoldable pub get_optimization : Link → Option ℕ → Jobs F J → Response F J
  unfolding job_by_id
  get_optimization link none s = write_error 400 (codes "invalid job id")
  get_optimization link (some i) s = found_job (job_by_id link i s)

  -- The list view, which omits the reports.
  abbrev pub without_report : Job F J → Job F J
  without_report j = record j { report = none }

  abbrev listed : Result (List (Job F J)) → Response F J
  listed (ok js) = record { status = 200; body = job_list (map without_report js) (length js) }
  listed (err e) = write_error 500 database_text

  -- listOptimizations; the limit is what Atoi answers, 0 with an error.
  unfoldable pub list_optimizations : Link → Bytes → ℤ → Jobs F J → Response F J
  unfolding list_jobs
  list_optimizations link status limit s = listed (list_jobs link status limit s)
