-- ===== src/Worker/Success.antt =====
-- cmd/worker/main.go, the end of handle: what a report leaves.
use queryforge.Prelude.{
  ℕ, ◌+◌, ◌≡◌, refl, sym, ◌∙◌, inl, inr, true, some, List, [], ◌∷◌, length-append, find,
  find-update_where, passes-find, length, count_of, Bool-cases, subst, arith,
}
use queryforge.Prelude.Float.{FloatOps}
use queryforge.Store.{
  succeeded, Job, Jobs, Link, up, has_id, claimable, claimed, completed, complete_job,
}
use queryforge.Optimizer
use queryforge.Optimizer.Pipeline.{is_accepted, Report, report}
use queryforge.Queue.{OptimizeRequest}
use queryforge.Worker.{
  Run, Fate, World, record_candidates, record_runs, complete, finish, handle, record_run,
  candidate_row, best_ms, best_gain,
}
use queryforge.Worker.Handle.{AllUp, ready}

module _ {F J X : Type 0} (fl : FloatOps F) (fate : Fate F J X) where
  -- What a run that ended in a report leaves: the report is the job's, its attempt has succeeded.
  pub record Reported (after : World F J) (i : ℕ) (raw : J) (rep : Report F X) : Type 0 where
    pub row : Job F J
    pub found : find (has_id i) after.jobs ≡ some row
    pub in_status : row.status ≡ succeeded
    pub kept : row.report ≡ some raw
    pub base : row.baseline_ms ≡ rep.baseline.measured.median_ms

  completes :
      (l : Link) (raw : J) (base best gain : F) (took now : ℕ) (s : Jobs F J) (j : Job F J)
      → l ≡ up
      → find (has_id j.id) s ≡ some j
      → find (has_id j.id) (complete_job l j.id raw base best gain took now s).1
        ≡ some (completed raw base best gain took now j)
  unfolding complete_job
  completes l raw base best gain took now s j u there = rw u (
      find-update_where (has_id j.id) (has_id j.id) (completed raw base best gain took now) s
        (λ x. refl) there
      ∙ rw (passes-find (has_id j.id) s there) refl)

  reported :
      (w : World F J) (j : Job F J) (rep : Report F X) (raw : J)
      → fate.store_link ≡ up
      → find (has_id j.id) w.jobs ≡ some j
      → Reported (complete fl fate j rep (some raw) w) j.id raw rep
  unfolding complete
  reported w j rep raw u there =
      let base = rep.baseline.measured.median_ms in
      let best = best_ms fl fate rep in
      let gain = best_gain fl fate rep in
      record {
        row = completed raw base best gain fate.elapsed_ms fate.stored_at j;
        found =
            completes fate.store_link raw base best gain fate.elapsed_ms fate.stored_at w.jobs j u
              there;
        in_status = refl;
        kept = refl;
        base = refl;
      }

  -- With every statement going through, a claimable job whose run ends in a report that can be
  -- marshalled is left succeeded with that report and its baseline, and no message is sent.
  pub handle-completes :
      (req : OptimizeRequest) (w : World F J) (j : Job F J) (rep : Report F X) (raw : J)
      → AllUp fate
      → find (has_id req.job_id) w.jobs ≡ some j
      → claimable req.job_id j ≡ true
      → fate.outcome j.sql ≡ report rep
      → fate.marshal rep ≡ some raw
      → Reported (handle fl fate req w) req.job_id raw rep
        × ((handle fl fate req w).messages ≡ w.messages)
  unfolding finish complete
  handle-completes req w j rep raw u there t ends written =
      let r = ready fl fate req w j u.claim_up there t in
      let recorded : World F J = record w {
        jobs = r.rows;
        history = record_runs fl fate (claimed fate.claimed_at j) rep w.history;
      } in
      rw r.ends_as (
        rw ends (
          rw written (
            subst
                (λ i.
                  Reported (complete fl fate (claimed fate.claimed_at j) rep (some raw) recorded) i
                    raw rep)
                (sym r.same)
                (reported recorded (claimed fate.claimed_at j) rep raw u.store_up r.there),
            refl,
          )))

  history-length :
      (i : ℕ) (row : Run F) (rows : List (Run F))
      → fate.history_link i ≡ up
      → length (record_run fl fate i row rows) ≡ length rows + 1
  history-length i row rows h = rw (h, length) (length-append rows (row ∷ []))

  candidates-length :
      (i : ℕ) (job : Job F J) (cs : List (Optimizer.Result F)) (rows : List (Run F))
      → ((k : ℕ) → fate.history_link k ≡ up)
      → length (record_candidates fl fate i job cs rows)
        ≡ length rows + count_of (λ (c : Optimizer.Result F). is_accepted c.verdict) cs
  unfolding record_candidates
  candidates-length i job [] rows h = omega arith
  candidates-length i job (c ∷ cs) rows h = elim (Bool-cases (is_accepted c.verdict)) [
    | inl t ↦ rw t (
        omega (
          arith,
          candidates-length (i + 1) job cs (record_run fl fate i (candidate_row fl fate job c) rows)
              h,
          history-length i (candidate_row fl fate job c) rows (h i),
        ))
    | inr f ↦ rw f (omega (arith, candidates-length i job cs rows h))
  ]

  -- With every INSERT going through, a report adds to the history one row for the baseline and one
  -- for each accepted candidate, and none for a rejected one.
  pub record_runs-length :
      (job : Job F J) (rep : Report F X) (rows : List (Run F))
      → ((k : ℕ) → fate.history_link k ≡ up)
      → length (record_runs fl fate job rep rows)
        ≡ length rows
          + 1
          + count_of (λ (c : Optimizer.Result F). is_accepted c.verdict) rep.candidates
  unfolding record_runs
  record_runs-length job rep rows h =
      omega (arith, candidates-length 1 job rep.candidates _ h, history-length 0 _ rows (h 0))
