-- ===== src/Worker/Handle.antt =====
-- cmd/worker/main.go, handle: what a message does whose job cannot be claimed, and where the handling
-- of one that can be claimed begins.
use queryforge.Prelude.{
  ℕ, ◌≡◌, refl, sym, ◌∙◌, Bool, true, false, none, some, List, [], ◌∷◌, All, find,
  find-update_where, passes-find, update_where, ==_iff, subst, arith,
}
use queryforge.Prelude.Float.{FloatOps}
use queryforge.Store.{
  not_found, send, Job, Jobs, Error, Result, ok, err, Link, up, down, lost, has_id, claimable,
  claimed, after_claim, refusal, claim_job, job_by_id,
}
use queryforge.Queue.{OptimizeRequest}
use queryforge.Worker.{Fate, World, finish, handle}

module _ {A : Type 0} where
  update_where-none :
      (p : A → Bool) (f : A → A) (xs : List A)
      → All (λ x. p x ≡ false) xs
      → update_where p f xs ≡ xs
  update_where-none p f [] h = refl
  update_where-none p f (x ∷ xs) h = ground (arith, update_where-none p f xs h.1)

  none_found : (p : A → Bool) (xs : List A) → All (λ x. p x ≡ false) xs → find p xs ≡ none
  none_found p [] h = refl
  none_found p (x ∷ xs) h = ground (arith, none_found p xs h.1)

  find-stronger :
      (q p : A → Bool) (xs : List A) (a : A)
      → ((x : A) → p x ≡ true → q x ≡ true)
      → find q xs ≡ some a
      → p a ≡ true
      → find p xs ≡ some a
  find-stronger q p [] a imp h t = cc
  find-stronger q p (x ∷ xs) a imp h t = ground (arith, imp x, find-stronger q p xs a imp)

module _ {F J : Type 0} where
  refusal-err : (r : Result (Job F J)) → (e : Error) × (refusal r ≡ err e)
  refusal-err (ok j) = (_, refl)
  refusal-err (err e) = (_, refl)

  refuse_unclaimable :
      (l m : Link) (i now : ℕ) (s : Jobs F J)
      → All (λ (j : Job F J). claimable i j ≡ false) s
      → (e : Error) × (claim_job l m i now s ≡ (err e, s))
  unfolding claim_job after_claim
  refuse_unclaimable l m i now s h =
      rw (none_found (claimable i) s h, update_where-none (claimable i) (claimed now) s h)
        (by_link l)
    where
      by_link :
          (k : Link)
          → (e : Error) × ◌≡◌ {A = Result (Job F J) × Jobs F J}
              (
                after_claim m i
                    (send k s (err not_found, s)).0
                    (send {A = Job F J} k s (err not_found, s)).1,
                (send {A = Job F J} k s (err not_found, s)).1,
              )
              (err e, s)
      by_link up = let (e, q) = refusal-err (job_by_id m i s) in (e, rw q refl)
      by_link down = (_, refl)
      by_link lost = (_, refl)

-- Every statement and every publication of a handling goes through.
pub record AllUp {F J X : Type 0} (fate : Fate F J X) : Type 0 where
  pub claim_up : fate.claim_link ≡ up
  pub store_up : fate.store_link ≡ up
  pub retry_up : fate.retry_link ≡ up
  pub dead_up : fate.dead_link ≡ up

module _ {F J X : Type 0} (fl : FloatOps F) (fate : Fate F J X) where
  -- A message of a job that cannot be claimed, such as a redelivered one of a job that a worker holds
  -- or that has ended, or one of no job at all, changes nothing: not the jobs, not the history, not
  -- the topics, whatever becomes of the statements.
  pub handle-ignores-unclaimable :
      (req : OptimizeRequest) (w : World F J)
      → All (λ (j : Job F J). claimable req.job_id j ≡ false) w.jobs
      → handle fl fate req w ≡ w
  unfolding handle
  handle-ignores-unclaimable req w h =
      let (e, drop) =
        refuse_unclaimable fate.claim_link fate.lookup_link req.job_id fate.claimed_at w.jobs h in
      rw drop refl

  handle-claimed :
      (req : OptimizeRequest) (w : World F J) (j : Job F J)
      → fate.claim_link ≡ up
      → find (has_id req.job_id) w.jobs ≡ some j
      → claimable req.job_id j ≡ true
      → handle fl fate req w
        ≡ finish fl fate (claimed fate.claimed_at j) req (fate.outcome j.sql) (record w {
          jobs = update_where (claimable req.job_id) (claimed fate.claimed_at) w.jobs;
        })
  unfolding handle claim_job after_claim
  handle-claimed req w j l there t = rw l (
      rw
        (find-stronger (has_id req.job_id) (claimable req.job_id) w.jobs j (λ x c. ground arith)
          there t)
        refl)

  -- A job that a message names, as the claim leaves it.
  pub record Ready (req : OptimizeRequest) (w : World F J) (j : Job F J) : Type 0 where
    pub same : req.job_id ≡ j.id
    pub rows : Jobs F J
    pub there : find (has_id j.id) rows ≡ some (claimed fate.claimed_at j)
    pub ends_as :
        handle fl fate req w
        ≡ finish fl fate
            (claimed fate.claimed_at j)
            req
            (fate.outcome j.sql)
            (record w { jobs = rows })

  pub ready :
      (req : OptimizeRequest) (w : World F J) (j : Job F J)
      → fate.claim_link ≡ up
      → find (has_id req.job_id) w.jobs ≡ some j
      → claimable req.job_id j ≡ true
      → Ready req w j
  ready req w j l there t =
      let same = sym ((==_iff j.id req.job_id).0 (passes-find (has_id req.job_id) w.jobs there)) in
      record {
        same = same;
        rows = update_where (claimable req.job_id) (claimed fate.claimed_at) w.jobs;
        there =
            subst
              (λ i.
                find (has_id i)
                  (update_where (claimable req.job_id) (claimed fate.claimed_at) w.jobs)
                ≡ some (claimed fate.claimed_at j))
              same
              (find-update_where (has_id req.job_id) (claimable req.job_id)
                  (claimed fate.claimed_at) w.jobs (λ x. refl) there
                ∙ rw t refl);
        ends_as = handle-claimed req w j l there t;
      }
