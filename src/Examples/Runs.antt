-- ===== src/Examples/Runs.antt =====
-- A run of the optimizer, a measurement and a transaction.
use queryforge.Prelude.{Bytes, ℕ, ◌+◌, ◌*◌, refl, false, [], ◌∷◌, codes, arith}
use queryforge.Prelude.Int.{ℤ, pos}
use queryforge.Prelude.Float.{thousandths}
use queryforge.Engine.{Outcome, done, Timings}
use queryforge.Engine.Timing.{Reading}
use queryforge.Engine.Experiment.{with_hypothetical_index}
use queryforge.Engine.Experiment.Laws.{
  is_plain, is_explain, IsInside, answers, asks, View, IsTransactional, Looks,
}
use queryforge.Engine.Experiment.Rollback.{with_hypothetical_index-leaves-no-trace}
use queryforge.Optimizer.{normalize_sql}
use queryforge.Optimizer.Pipeline.{verify_all, verifier}
use queryforge.Optimizer.Pipeline.Once.{IsFresh, verify_all-tests-no-text-twice}
use queryforge.Examples.Data.{original, plan, base, candidate, copy, parts, options, driver, Server}

-- (lent connections, open transaction, committed changes)
abbrev view : View Server ℕ
view = record { lent = λ s. s.lent; in_tx = λ s. s.in_tx; catalog = λ s. s.committed }

driver-IsTransactional : IsTransactional driver view
driver-IsTransactional = record {
  acquires = λ e. record { lends = refl; tx_state = refl; committed = refl };
  begins = λ e. record { lends = refl; tx_state = refl; committed = refl };
  begins_read_only = λ e. record { lends = refl; tx_state = refl; committed = refl };
  executes = λ s e p h. record { lends = refl; tx_state = h; committed = refl };
  queries = λ s e p h. record { lends = refl; tx_state = h; committed = refl };
  rolls_back = λ e. record { lends = refl; tx_state = refl; committed = refl };
  releases = λ e n h. record { lends = ground arith; tx_state = refl; committed = refl };
}

abbrev idle : Server
idle = record { lent = 2; in_tx = false; pending = 0; committed = 6 }

abbrev explain_text : Bytes
explain_text = codes "EXPLAIN (ANALYZE, BUFFERS, FORMAT JSON, TIMING, COSTS) SELECT 1"

-- A measurement inside the transaction.
abbrev explain : Server → Outcome ℕ × Server
explain s = (done 40, (driver.query explain_text s).1)

explain-IsInside : IsInside driver explain
unfolding is_explain
explain-IsInside = asks explain_text refl (λ e o s. (done 40, s)) (λ e o. answers (λ s. done 40))

with_hypothetical_index-leaves-no-trace_example :
    Looks view idle 2 false
      (with_hypothetical_index driver
        (codes "SET LOCAL statement_timeout = 1")
        (codes "CREATE INDEX i")
        explain
        idle).1
unfolding is_plain
with_hypothetical_index-leaves-no-trace_example =
    with_hypothetical_index-leaves-no-trace driver view driver-IsTransactional
      (codes "SET LOCAL statement_timeout = 1") (codes "CREATE INDEX i") explain idle refl refl refl
      explain-IsInside

-- Execution number `n` takes 10 + n ms.
abbrev execution : ℕ → Reading ℤ
execution n = record {
  exec_ms = pos (10000 + 1000 * n);
  planning_ms = pos 0;
  rows = pos 3000;
  shared_hit = 0;
  shared_read = 0;
  temp_written = 0;
  plan = plan;
}

abbrev timings : Timings
timings = record { statement_timeout = 15000; runs = 5; warmup_runs = 1 }

verify_all-tests-no-text-twice_example :
    IsFresh
      (normalize_sql original ∷ [])
      (verify_all thousandths
        (verifier parts options)
        base
        (normalize_sql original ∷ [])
        (candidate ∷ copy ∷ candidate ∷ [])
        0).0
verify_all-tests-no-text-twice_example =
    verify_all-tests-no-text-twice thousandths (verifier parts options) base
      (candidate ∷ copy ∷ candidate ∷ []) 0
