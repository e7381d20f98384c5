-- ===== src/Worker/Service/Handling.antt =====
-- The handling of another job's message, where a job waits without one.
use queryforge.Prelude.{
  ℕ, ◌+◌, ◌≡◌, refl, Bool, true, false, Option, none, some, List, Bytes, All, ◌==◌, if◌then◌else◌,
}
use queryforge.Prelude.Float.{FloatOps}
use queryforge.Store.{Job, Result, ok, err, has_id, failed_once, mark_failure, complete_job}
use queryforge.Optimizer.Pipeline.{Report, Ran, report, aborted}
use queryforge.Queue.{OptimizeRequest, Topic, dead, retry_topic, Message}
use queryforge.Worker
use queryforge.Worker.{
  Fate, World, dead_letter, or_dead_letter, send_to_tier, will_retry, schedule_retry, record_runs,
  complete, finish, handle,
}
use queryforge.Worker.Service.Waiting.{
  Foreign, other_id, send-Waits, IsStranded, publish-Foreign, update-Waits, claim-Waits, NotOf,
  claim-NotOf,
}

module _ {F J X : Type 0} (i : ℕ) (row : Job F J) (fl : FloatOps F) (fate : Fate F J X) where
  dead_letter-IsStranded :
      (req : OptimizeRequest) (w : World F J)
      → (req.job_id == i) ≡ false
      → IsStranded i row w
      → IsStranded i row (dead_letter fl fate req w)
  unfolding dead_letter
  dead_letter-IsStranded req w n h = record {
    waiting = h.waiting;
    unnamed = publish-Foreign i fate.dead_link dead _ w.messages n h.unnamed;
  }

  or_dead_letter-IsStranded :
      (req : OptimizeRequest) (w : World F J) (r : Bool × List Message)
      → (req.job_id == i) ≡ false
      → All (Foreign i) r.1
      → IsStranded i row w
      → IsStranded i row (or_dead_letter fl fate req w r)
  or_dead_letter-IsStranded req w (true, ms) n g h = record { waiting = h.waiting; unnamed = g }
  or_dead_letter-IsStranded req w (false, ms) n g h =
      dead_letter-IsStranded req (record w { messages = ms }) n
        (record { waiting = h.waiting; unnamed = g })

  send_to_tier-IsStranded :
      (req : OptimizeRequest) (w : World F J) (o : Option (Topic × ℕ))
      → (req.job_id == i) ≡ false
      → IsStranded i row w
      → IsStranded i row (send_to_tier fl fate req w o)
  unfolding send_to_tier
  send_to_tier-IsStranded req w none n h = dead_letter-IsStranded req w n h
  send_to_tier-IsStranded req w (some (topic, delay)) n h =
      or_dead_letter-IsStranded req w _ n
        (publish-Foreign i fate.retry_link topic _ w.messages n h.unnamed) h

  either_way :
      (b : Bool) {x y : World F J}
      → IsStranded i row x
      → IsStranded i row y
      → IsStranded i row (if b then x else y)
  either_way true h k = h
  either_way false h k = k

  schedule_retry-IsStranded :
      (j : Job F J) (req : OptimizeRequest) (why : Bytes) (w : World F J)
      → (j.id == i) ≡ false
      → (req.job_id == i) ≡ false
      → IsStranded i row w
      → IsStranded i row (schedule_retry fl fate j req why w)
  unfolding schedule_retry mark_failure
  schedule_retry-IsStranded j req why w m n h =
      let next : OptimizeRequest = record req { attempt = j.attempts + 1; last_error = why } in
      let jobs' = send-Waits i row fate.store_link w.jobs _ _ h.waiting (
        update-Waits i row (has_id j.id) (failed_once why fate.stored_at) w.jobs (λ x. refl)
          (other_id i row j.id m h.waiting.waits) h.waiting) in
      either_way
        (will_retry fl fate (mark_failure fate.store_link j.id why fate.stored_at w.jobs).0)
        (send_to_tier-IsStranded next _ (retry_topic j.attempts) n
          (record { waiting = jobs'; unnamed = h.unnamed }))
        (dead_letter-IsStranded next _ n (record { waiting = jobs'; unnamed = h.unnamed }))

  complete-IsStranded :
      (j : Job F J) (rep : Report F X) (o : Option J) (w : World F J)
      → (j.id == i) ≡ false
      → IsStranded i row w
      → IsStranded i row (complete fl fate j rep o w)
  unfolding complete complete_job
  complete-IsStranded j rep none w m h = h
  complete-IsStranded j rep (some raw) w m h = record {
    waiting = send-Waits i row fate.store_link w.jobs _ _ h.waiting (
        update-Waits i row (has_id j.id) _ w.jobs (λ x. refl)
          (other_id i row j.id m h.waiting.waits) h.waiting);
    unnamed = h.unnamed;
  }

  finish-IsStranded :
      (j : Job F J) (req : OptimizeRequest) (r : Ran (Report F X)) (w : World F J)
      → (j.id == i) ≡ false
      → (req.job_id == i) ≡ false
      → IsStranded i row w
      → IsStranded i row (finish fl fate j req r w)
  unfolding finish
  finish-IsStranded j req (aborted why) w m n h =
      schedule_retry-IsStranded j req (fate.error_text why) w m n h
  finish-IsStranded j req (report rep) w m n h =
      complete-IsStranded j rep (fate.marshal rep) _ m
        (record { waiting = h.waiting; unnamed = h.unnamed })

  after_claim-IsStranded :
      (req : OptimizeRequest) (r : Result (Job F J)) (w : World F J)
      → NotOf i r
      → (req.job_id == i) ≡ false
      → IsStranded i row w
      → IsStranded i row (Worker.after_claim fl fate req r w)
  after_claim-IsStranded req (err e) w m n h = h
  after_claim-IsStranded req (ok j) w m n h = finish-IsStranded j req (fate.outcome j.sql) w m n h

  pub handle-IsStranded :
      (req : OptimizeRequest) (w : World F J)
      → (req.job_id == i) ≡ false
      → IsStranded i row w
      → IsStranded i row (handle fl fate req w)
  unfolding handle
  handle-IsStranded req w n h =
      after_claim-IsStranded req _ _
        (claim-NotOf i fate.claim_link fate.lookup_link req.job_id fate.claimed_at w.jobs n) n
        (record {
          waiting =
              claim-Waits i row fate.claim_link fate.lookup_link req.job_id fate.claimed_at w.jobs n
                h.waiting;
          unnamed = h.unnamed;
        })
