-- ===== src/Worker/Failure.antt =====
-- cmd/worker/main.go, scheduleRetry within handle: what a failed attempt leaves.
use queryforge.Prelude.{
  ℕ, zero, suc, ◌+◌, ◌≤◌, ◌≡◌, refl, sym, ◌∙◌, true, false, none, some, List, [], ◌∷◌, ◌++◌, Bytes,
  get_elem?, find, find-update_where, passes-find, update_where, subst, arith,
}
use queryforge.Prelude.Float.{FloatOps}
use queryforge.Prelude.Int.{ℤ, pos, negsuc, ltb_ℤ, leb_ℤ}
use queryforge.Store.{
  Status, is_retrying, retrying, failed, Job, Jobs, has_room, ok, Link, up, has_id, claimable,
  claimed, failed_once, after_failure, mark_failure,
}
use queryforge.Optimizer.Pipeline.{RunError, aborted}
use queryforge.Queue.{OptimizeRequest, Topic, dead, retry, retry_topic, Message, publish}
use queryforge.Worker.{Fate, World, dead_letter, send_to_tier, schedule_retry, finish, handle}
use queryforge.Worker.Handle.{AllUp, Ready, ready}

module _ {F J X : Type 0} (fl : FloatOps F) (fate : Fate F J X) where
  -- The job's row and the one message that a failed attempt leaves.
  pub record Settled (before : List Message) (after : World F J) (i : ℕ) (topic : Topic)
      (status : Status) : Type 0 where
    pub row : Job F J
    pub found : find (has_id i) after.jobs ≡ some row
    pub in_status : row.status ≡ status
    pub notice : OptimizeRequest
    pub names_job : notice.job_id ≡ i
    pub sent : after.messages ≡ before ++ (topic, notice) ∷ []

  marks :
      (l : Link) (cause : Bytes) (now : ℕ) (s : Jobs F J) (j : Job F J)
      → l ≡ up
      → find (has_id j.id) s ≡ some j
      → mark_failure l j.id cause now s
        ≡ (ok (is_retrying (after_failure j)), update_where (has_id j.id) (failed_once cause now) s)
  unfolding mark_failure
  marks l cause now s j u there = rw u (rw there refl)

  publishes :
      (l : Link) (t : Topic) (req : OptimizeRequest) (ms : List Message)
      → l ≡ up
      → publish l t req ms ≡ (true, ms ++ (t, req) ∷ [])
  unfolding publish
  publishes l t req ms u = rw u refl

  retries : (j : Job F J) → has_room j ≡ true → is_retrying (after_failure j) ≡ true
  retries j h = ground arith

  gives_up : (j : Job F J) → has_room j ≡ false → is_retrying (after_failure j) ≡ false
  gives_up j h = ground arith

  failed_row :
      (cause : Bytes) (now : ℕ) (s : Jobs F J) (j : Job F J)
      → find (has_id j.id) s ≡ some j
      → find (has_id j.id) (update_where (has_id j.id) (failed_once cause now) s)
        ≡ some (failed_once cause now j)
  failed_row cause now s j there =
      find-update_where (has_id j.id) (has_id j.id) (failed_once cause now) s (λ x. refl) there
      ∙ rw (passes-find (has_id j.id) s there) refl

  to_tier :
      (req : OptimizeRequest) (w : World F J) (j : Job F J) (why : Bytes) (d : ℕ)
      → AllUp fate
      → find (has_id j.id) w.jobs ≡ some j
      → has_room j ≡ true
      → retry_topic j.attempts ≡ some (retry d, d)
      → req.job_id ≡ j.id
      → Settled w.messages (schedule_retry fl fate j req why w) j.id (retry d) retrying
  unfolding schedule_retry send_to_tier
  to_tier req w j why d u there left tier same =
      rw (marks fate.store_link why fate.stored_at w.jobs j u.store_up there) (
        rw (retries j left) (
          rw tier (
            rw (publishes fate.retry_link (retry d) _ w.messages u.retry_up) (record {
              row = failed_once why fate.stored_at j;
              found = failed_row why fate.stored_at w.jobs j there;
              in_status = ground arith;
              notice = _;
              names_job = same;
              sent = refl;
            }))))

  to_dead :
      (req : OptimizeRequest) (w : World F J) (j : Job F J) (why : Bytes)
      → AllUp fate
      → find (has_id j.id) w.jobs ≡ some j
      → has_room j ≡ false
      → req.job_id ≡ j.id
      → Settled w.messages (schedule_retry fl fate j req why w) j.id dead failed
  unfolding schedule_retry dead_letter
  to_dead req w j why u there spent same =
      rw (marks fate.store_link why fate.stored_at w.jobs j u.store_up there) (
        rw (gives_up j spent) (
          rw (publishes fate.dead_link dead _ w.messages u.dead_up) (record {
            row = failed_once why fate.stored_at j;
            found = failed_row why fate.stored_at w.jobs j there;
            in_status = ground arith;
            notice = _;
            names_job = same;
            sent = refl;
          })))

  off_the_ladder :
      (req : OptimizeRequest) (w : World F J) (j : Job F J) (why : Bytes)
      → AllUp fate
      → find (has_id j.id) w.jobs ≡ some j
      → has_room j ≡ true
      → retry_topic j.attempts ≡ none
      → req.job_id ≡ j.id
      → Settled w.messages (schedule_retry fl fate j req why w) j.id dead retrying
  unfolding schedule_retry send_to_tier dead_letter
  off_the_ladder req w j why u there left tier same =
      rw (marks fate.store_link why fate.stored_at w.jobs j u.store_up there) (
        rw (retries j left) (
          rw tier (
            rw (publishes fate.dead_link dead _ w.messages u.dead_up) (record {
              row = failed_once why fate.stored_at j;
              found = failed_row why fate.stored_at w.jobs j there;
              in_status = ground arith;
              notice = _;
              names_job = same;
              sent = refl;
            }))))

  settle :
      (req : OptimizeRequest) (w : World F J) (j : Job F J) (why : RunError)
      (r : Ready fl fate req w j) (topic : Topic) (status : Status)
      → fate.outcome j.sql ≡ aborted why
      → Settled w.messages
          (schedule_retry fl fate
            (claimed fate.claimed_at j)
            req
            (fate.error_text why)
            (record w { jobs = r.rows }))
          j.id
          topic
          status
      → Settled w.messages (handle fl fate req w) req.job_id topic status
  unfolding finish
  settle req w j why r topic status fails h =
      subst (λ i. Settled w.messages (handle fl fate req w) i topic status) (sym r.same)
        (rw r.ends_as (rw fails h))

  -- The tier of the ladder for an attempt that leaves one more.
  tier_of :
      (a : ℕ) (m : ℤ)
      → ltb_ℤ (pos (a + 1)) m ≡ true
      → leb_ℤ m (pos 3) ≡ true
      → (d : ℕ) × (get_elem? (15 ∷ 120 ∷ []) a ≡ some d) × (retry_topic (a + 1) ≡ some (retry d, d))
  unfolding retry_topic
  tier_of zero m h k = (_, refl, refl)
  tier_of (suc zero) m h k = (_, refl, refl)
  tier_of (suc (suc a)) (pos n) h k = absurd (ground arith)
  tier_of (suc (suc a)) (negsuc n) h k = absurd (ground arith)

  -- With every statement and publication going through, a job whose run fails before its last attempt, and whose
  -- limit is three attempts at most, is left retrying, and exactly one message is sent: a request
  -- for that job, to the tier of 15 seconds after its first attempt and of 120 after its second.
  pub handle-retries :
      (req : OptimizeRequest) (w : World F J) (j : Job F J) (why : RunError)
      → AllUp fate
      → find (has_id req.job_id) w.jobs ≡ some j
      → claimable req.job_id j ≡ true
      → ltb_ℤ (pos (j.attempts + 1)) j.max_attempts ≡ true
      → leb_ℤ j.max_attempts (pos 3) ≡ true
      → fate.outcome j.sql ≡ aborted why
      → (d : ℕ) × (get_elem? (15 ∷ 120 ∷ []) j.attempts ≡ some d)
        × Settled w.messages (handle fl fate req w) req.job_id (retry d) retrying
  handle-retries req w j why u there t left short fails =
      let r = ready fl fate req w j u.claim_up there t in
      let (d, listed, tier) = tier_of j.attempts j.max_attempts left short in
      (
        d,
        listed,
        settle req w j why r (retry d) retrying fails (
            to_tier req (record w { jobs = r.rows }) (claimed fate.claimed_at j)
              (fate.error_text why) d u r.there left tier r.same),
      )

  -- With every statement and publication going through, a job whose run fails on its last attempt
  -- is left failed, and exactly one message is sent: a request for that job, to the dead letters.
  pub handle-gives-up :
      (req : OptimizeRequest) (w : World F J) (j : Job F J) (why : RunError)
      → AllUp fate
      → find (has_id req.job_id) w.jobs ≡ some j
      → claimable req.job_id j ≡ true
      → ltb_ℤ (pos (j.attempts + 1)) j.max_attempts ≡ false
      → fate.outcome j.sql ≡ aborted why
      → Settled w.messages (handle fl fate req w) req.job_id dead failed
  handle-gives-up req w j why u there t spent fails =
      let r = ready fl fate req w j u.claim_up there t in
      settle req w j why r dead failed fails (
        to_dead req (record w { jobs = r.rows }) (claimed fate.claimed_at j) (fate.error_text why) u
          r.there spent r.same)

  past_tiers : (a : ℕ) → 3 ≤ a → retry_topic a ≡ none
  unfolding retry_topic
  past_tiers zero h = absurd (omega arith)
  past_tiers (suc zero) h = absurd (omega arith)
  past_tiers (suc (suc zero)) h = absurd (omega arith)
  past_tiers (suc (suc (suc a))) h = refl

  -- With every statement and publication going through, a job whose limit is more than three
  -- attempts and whose third or later attempt, not its last, fails is left retrying in the table,
  -- though the one message that is sent, which names it, goes to the dead letters.
  pub handle-strands-beyond-ladder :
      (req : OptimizeRequest) (w : World F J) (j : Job F J) (why : RunError)
      → AllUp fate
      → find (has_id req.job_id) w.jobs ≡ some j
      → claimable req.job_id j ≡ true
      → ltb_ℤ (pos (j.attempts + 1)) j.max_attempts ≡ true
      → 2 ≤ j.attempts
      → fate.outcome j.sql ≡ aborted why
      → Settled w.messages (handle fl fate req w) req.job_id dead retrying
  handle-strands-beyond-ladder req w j why u there t left many fails =
      let r = ready fl fate req w j u.claim_up there t in
      settle req w j why r dead retrying fails (
        off_the_ladder req (record w { jobs = r.rows }) (claimed fate.claimed_at j)
          (fate.error_text why) u r.there left (past_tiers (j.attempts + 1) (omega arith)) r.same)
