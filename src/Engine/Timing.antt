-- ===== src/Engine/Timing.antt =====
-- The measuring loop of internal/engine/postgres.go (Measure, MeasureInTx, median). What one
-- execution of EXPLAIN ANALYZE answers is an argument, round by round.
use queryforge.Prelude.{
  ℕ, zero, suc, ◌+◌, ◌-◌, ◌/◌, ◌%◌, true, false, none, some, List, [], ◌∷◌, ◌++◌, length, get_or,
  ltb, ◌==◌, if◌then◌else◌,
}
use queryforge.Prelude.Float.{FloatOps}
use queryforge.Prelude.Sort.{sort_stable}
use queryforge.Engine.{Plan, Measurement, Timings}

module _ {F : Type 0} (fl : FloatOps F) where
  -- median, of times that are sorted
  unfoldable pub median : List F → F
  median sorted =
      let n = length sorted in
      if n == 0
      then fl.lit 0
      else if n % 2 == 1
      then get_or sorted (n / 2) (fl.lit 0)
      else fl.div (fl.add (get_or sorted (n / 2 - 1) (fl.lit 0)) (get_or sorted (n / 2) (fl.lit 0)))
          (fl.lit 2)

-- planExecutionStats and parsePlan of one document.
pub record Reading (F : Type 0) : Type 0 where
  pub exec_ms : F
  pub planning_ms : F
  pub rows : F
  pub shared_hit : ℕ
  pub shared_read : ℕ
  pub temp_written : ℕ
  pub plan : Plan F

-- One round of the loop: the execution fails, by the statement timeout or otherwise, or answers a
-- document that does not decode, or answers a reading of type `R`.
pub data Round (R : Type 0) : Type 0 where
  timeout broken undecodable : Round R
  reading : R → Round R

pub data Failure : Type 0 where
  execution decoding : Failure

-- What Measure answers.
pub data Measured (F : Type 0) : Type 0 where
  measured : Measurement F → Measured F
  failed : Failure → Measured F

module _ {F : Type 0} (fl : FloatOps F) where
  -- &Measurement{Runs: runs}
  abbrev pub blank : ℕ → Measurement F
  blank runs = record {
    runs = runs;
    median_ms = fl.lit 0;
    min_ms = fl.lit 0;
    max_ms = fl.lit 0;
    spread_ms = fl.lit 0;
    planning_ms = fl.lit 0;
    actual_rows = fl.lit 0;
    shared_hit = 0;
    shared_read = 0;
    temp_written = 0;
    plan = none;
    timed_out = false;
  }

  -- After the loop: median, minimum, maximum and spread of the sorted times.
  unfoldable pub summarise : Measurement F → List F → Measurement F
  summarise m [] = m
  summarise m (t ∷ ts) =
      let sorted = sort_stable fl.lt (t ∷ ts) in
      let least = get_or sorted 0 (fl.lit 0) in
      let most = get_or sorted (length sorted - 1) (fl.lit 0) in
      record m {
        median_ms = median fl sorted;
        min_ms = least;
        max_ms = most;
        spread_ms = fl.sub most least;
      }

-- The loop of Measure, MeasureInTx and the MySQL Measure, which differ in what a round reads: `time`
-- is the time in a reading, and `note` the assignments at the end of a round that is no warm-up.
module _ {F R : Type 0} (fl : FloatOps F) (time : R → F)
    (note : Measurement F → R → Measurement F) where
  -- From round `i`, with `left` rounds to go, `warmup` rounds discarded and the times so far.
  unfoldable pub measure_loop : ℕ → (ℕ → Round R) → ℕ → ℕ → Measurement F → List F → Measured F
  measure_loop warmup rounds zero i m durations = measured (summarise fl m durations)
  measure_loop warmup rounds (suc left) i m durations = elim (rounds i) [
    | timeout ↦ measured (record m { timed_out = true })
    | broken ↦ failed execution
    | undecodable ↦ failed decoding
    | reading r ↦ elim (ltb i warmup) [
      | true ↦ measure_loop warmup rounds left (suc i) m durations
      | false ↦ measure_loop warmup rounds left (suc i) (note m r) (durations ++ time r ∷ [])
    ]
  ]

  -- The whole method from the blank or planned measurement; `rounds i` is what round `i` meets.
  unfoldable pub measure_from : (ℕ → Measurement F) → Timings → (ℕ → Round R) → ℕ → Measured F
  unfolding measure_loop
  measure_from start t rounds asked =
      let runs = if asked == 0 then t.runs else asked in
      measure_loop t.warmup_runs rounds (runs + t.warmup_runs) 0 (start runs) []

-- The assignments of Measure; MeasureInTx leaves TempWritten alone.
abbrev pub note_run : {F : Type 0} → Measurement F → Reading F → Measurement F
note_run m r = record m {
  plan = some r.plan;
  planning_ms = r.planning_ms;
  actual_rows = r.rows;
  shared_hit = r.shared_hit;
  shared_read = r.shared_read;
  temp_written = r.temp_written;
}

abbrev pub note_run_in_tx : {F : Type 0} → Measurement F → Reading F → Measurement F
note_run_in_tx m r = record (note_run m r) { temp_written = m.temp_written }

module _ {F : Type 0} (fl : FloatOps F) where
  -- (*Postgres).Measure
  unfoldable pub measure : Timings → (ℕ → Round (Reading F)) → ℕ → Measured F
  unfolding measure_from
  measure = measure_from fl (λ r. r.exec_ms) note_run (blank fl)

  -- (*Postgres).MeasureInTx, with the experiment's transaction in the context
  unfoldable pub measure_in_tx : Timings → (ℕ → Round (Reading F)) → ℕ → Measured F
  unfolding measure_from
  measure_in_tx = measure_from fl (λ r. r.exec_ms) note_run_in_tx (blank fl)

  -- (*MySQL).Measure after its Explain: a reading is the elapsed time and the number of rows.
  unfoldable pub measure_mysql : Plan F → Timings → (ℕ → Round (F × ℕ)) → ℕ → Measured F
  unfolding measure_from
  measure_mysql plan =
      measure_from fl (λ r. r.0) (λ m r. record m { actual_rows = fl.lit r.1 })
        (λ runs. record (blank fl runs) { plan = some plan })
