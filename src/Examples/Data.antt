-- ===== src/Examples/Data.antt =====
-- The inputs that the examples share: a statement with a rewrite, an engine on which the rewrite is
-- faster, and a table with a job.
use queryforge.Prelude.{
  ℕ, zero, suc, ◌+◌, Bool, true, false, none, some, [], ◌∷◌, Bytes, codes, bytes_eq, if◌then◌else◌,
}
use queryforge.Prelude.Int.{ℤ, pos}
use queryforge.Engine.{done, fault, Plan, Measurement, ResultHash}
use queryforge.Engine.Experiment.{Driver}
use queryforge.Sql.{Statement, Parsed, parsed, refused, postgres, not_read_only}
use queryforge.Rules.{Finding, high}
use queryforge.Optimizer.{Candidate, Baseline, Engine}
use queryforge.Optimizer.Indexes.{Lab}
use queryforge.Optimizer.Pipeline.{Parts, Options}
use queryforge.Store.{Job, queued}
use queryforge.Queue.{OptimizeRequest}

abbrev pub original : Bytes
original = codes "SELECT a"

abbrev pub rewrite : Bytes
rewrite = codes "SELECT b"

abbrev pub statement_of : Bytes → Statement
statement_of sql = record {
  sql = sql;
  dialect = postgres;
  normalized = sql;
  fingerprint = codes "f";
  tables = [];
  cte_names = [];
  output_cols = [];
  has_limit = false;
  has_order_by = false;
  select_star = true;
}

abbrev pub plan : Plan ℤ
plan = record {
  raw = [];
  summary = codes "Seq Scan";
  total_cost = pos 7000;
  startup_cost = pos 0;
  estimated_rows = pos 3000;
  node_types = [];
  seq_scan_tables = [];
}

-- A measurement with a median and a spread.
abbrev pub timing : ℕ → ℕ → Measurement ℤ
timing median spread = record {
  runs = 5;
  median_ms = pos median;
  min_ms = pos median;
  max_ms = pos (median + spread);
  spread_ms = pos spread;
  planning_ms = pos 0;
  actual_rows = pos 3000;
  shared_hit = 0;
  shared_read = 0;
  temp_written = 0;
  plan = some plan;
  timed_out = false;
}

abbrev pub rows : ResultHash
rows = record { hash = codes "h"; row_count = 3; ordered = false }

-- An engine whose state counts the calls: the original takes 100 ms, all else 40 ms.
abbrev pub engine : Engine ℤ ℕ
engine = record {
  explain = λ sql n. (done plan, suc n);
  measure =
      λ sql runs n. (done (timing (if bytes_eq sql original then 100000 else 40000) 1000), suc n);
  checksum = λ sql ordered n. (done rows, suc n);
}

-- A parser that knows the two statements and refuses all else.
abbrev pub parse : Bytes → Parsed Statement
parse sql =
    if bytes_eq sql original
    then parsed (statement_of original)
    else if bytes_eq sql rewrite
    then parsed (statement_of rewrite)
    else refused (not_read_only [])

abbrev pub options : Options ℤ
options = record {
  max_candidates = 4;
  min_improvement_pct = pos 10000;
  runs = 5;
  test_indexes = true;
  max_index_tests = 3;
  skip_llm = false;
}

abbrev pub finding : Finding
finding = record {
  code = codes "missing_index";
  title = codes "t";
  severity = high;
  table = codes "a";
  columns = [];
  evidence = [];
  rewrite = rewrite;
  suggested_index = codes "CREATE INDEX i";
}

-- A server that counts the connections lent, the changes of the open transaction and those that are
-- committed.
pub record Server : Type 0 where
  pub lent : ℕ
  pub in_tx : Bool
  pub pending : ℕ
  pub committed : ℕ

abbrev lends : ℕ → ℕ
lends zero = zero
lends (suc n) = n

abbrev pub driver : Driver Server
driver = record {
  acquire = λ s. (done tt, record s { lent = suc s.lent });
  begin = λ s. (done tt, record s { in_tx = true; pending = 0 });
  begin_read_only = λ s. (done tt, record s { in_tx = true; pending = 0 });
  exec = λ sql s. (done tt, record s { pending = suc s.pending });
  query = λ sql s. (done [], record s { pending = suc s.pending });
  rollback = λ s. record s { in_tx = false; pending = 0 };
  release = λ s. record s { lent = lends s.lent };
}

-- The same engine as a laboratory, with a driver that only counts.
abbrev pub lab : Lab ℤ ℕ
lab = record {
  is_postgres = true;
  says_unavailable = λ t. false;
  driver = record {
    acquire = λ n. (done tt, n);
    begin = λ n. (done tt, n);
    begin_read_only = λ n. (done tt, n);
    exec = λ sql n. (done tt, suc n);
    query = λ sql n. (done [], suc n);
    rollback = λ n. n;
    release = λ n. n;
  };
  set_timeout = codes "SET LOCAL statement_timeout = 60000";
  measure_in_tx = λ sql runs n. (done (timing 50000 1000), suc n);
  elapsed = λ a b. 12;
  min_improvement_pct = pos 10000;
  runs = 5;
}

abbrev pub parts : Parts ℤ ℕ
parts = record {
  engine = engine;
  parse = parse;
  introspect = λ names n. (done (record { tables = [] }), suc n);
  analyze = λ st schema m. finding ∷ [];
  llm_enabled = false;
  propose = λ st schema base fs n. (fault [], n);
  lab = lab;
}

abbrev pub base : Baseline ℤ
base = record {
  statement = statement_of original;
  plan = plan;
  measured = timing 100000 1000;
  checksum = rows;
  ordered = false;
}

abbrev pub candidate : Candidate
candidate = record { sql = rewrite; source = codes "llm"; rationale = [] }

abbrev pub copy : Candidate
copy = record { sql = original; source = codes "llm"; rationale = [] }

-- A queued job with a limit of three attempts.
abbrev pub job : Job ℤ Bytes
job = record {
  id = 7;
  idempotency_key = codes "k";
  sql = original;
  fingerprint = codes "f";
  status = queued;
  attempts = 0;
  max_attempts = pos 3;
  last_error = [];
  report = none;
  baseline_ms = pos 0;
  best_ms = pos 0;
  improvement_pct = pos 0;
  duration_ms = 0;
  created_at = 1;
  updated_at = 1;
  started_at = none;
  finished_at = none;
}

abbrev pub request : OptimizeRequest
request = record {
  job_id = 7;
  sql = original;
  attempt = 0;
  not_before = none;
  last_error = [];
  enqueued_at = 1;
}
