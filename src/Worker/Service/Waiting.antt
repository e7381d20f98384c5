-- ===== src/Worker/Service/Waiting.antt =====
-- A job that waits while no message names it, and what keeps a table and a topic that way.
use queryforge.Prelude.{
  ℕ, ◌≡◌, refl, inl, inr, Bool, true, false, Option, none, some, List, [], ◌∷◌, All, All-append,
  find, find-update_where, ap, ◌∙◌, if◌then◌else◌, passes-find, update_where, ◌==◌, Bool-cases,
  Option-cases, arith,
}
use queryforge.Store.{
  Job, Jobs, Error, not_found, already_claimed, database, refusal, job_by_id, Result, ok, err, Link,
  up, down, lost, has_id, claimable, claimed, reclaimed, claim_job, after_claim, reclaim_stale,
  send,
}
use queryforge.Queue.{OptimizeRequest, Topic, Message, publish, fetch, same_topic}
use queryforge.Worker.{World}

module _ (i : ℕ) where
  -- A message of another job.
  abbrev pub Foreign : Message → Type 0
  Foreign m = (m.1.job_id == i) ≡ false

  pub publish-Foreign :
      (l : Link) (t : Topic) (req : OptimizeRequest) (ms : List Message)
      → (req.job_id == i) ≡ false
      → All Foreign ms
      → All Foreign (publish l t req ms).1
  unfolding publish
  publish-Foreign up t req ms n h = All-append Foreign ms _ h (n, tt)
  publish-Foreign down t req ms n h = h
  publish-Foreign lost t req ms n h = All-append Foreign ms _ h (n, tt)

  -- Neither the message that a consumer fetches nor any other is of job `i`.
  abbrev pub Fetched : Option (OptimizeRequest × List Message) → Type 0
  Fetched none = Unit
  Fetched (some (req, rest)) = ((req.job_id == i) ≡ false) × All Foreign rest

  behind :
      (m : Message) (o : Option (OptimizeRequest × List Message))
      → Foreign m
      → Fetched o
      → Fetched (elim o [ none ↦ none | some (r, others) ↦ some (r, m ∷ others) ])
  behind m none n h = tt
  behind m (some (r, others)) n h = (h.0, (n, h.1))

  pub fetch-Foreign : (t : Topic) (ms : List Message) → All Foreign ms → Fetched (fetch t ms)
  unfolding fetch
  fetch-Foreign t [] h = tt
  fetch-Foreign t ((u, r) ∷ ms) h = elim (Bool-cases (same_topic u t)) [
    | inl here ↦ rw here (h.0, h.1)
    | inr gone ↦ rw gone (behind (u, r) (fetch t ms) h.0 (fetch-Foreign t ms h.1))
  ]

module _ {F J : Type 0} (i : ℕ) (row : Job F J) where
  -- The row of job `i` is this one, and it waits to be claimed.
  pub record Waits (s : Jobs F J) : Type 0 where
    pub found : find (has_id i) s ≡ some row
    pub waits : claimable i row ≡ true

  -- Job `i` waits, with this row, and no message would make a worker claim it.
  pub record IsStranded (w : World F J) : Type 0 where
    pub waiting : Waits w.jobs
    pub unnamed : All (Foreign i) w.messages

  missed :
      (p : Job F J → Bool) (f : Job F J → Job F J)
      → p row ≡ false
      → (if p row then f row else row) ≡ row
  missed p f e = rw e refl

  -- An UPDATE that keeps the ids and passes over the row.
  pub update-Waits :
      (p : Job F J → Bool) (f : Job F J → Job F J) (s : Jobs F J)
      → ((j : Job F J) → has_id i (f j) ≡ has_id i j)
      → p row ≡ false
      → Waits s
      → Waits (update_where p f s)
  update-Waits p f s same other h = record {
    found = find-update_where (has_id i) p f s same h.found ∙ ap some (missed p f other);
    waits = h.waits;
  }

  pub send-Waits :
      {A : Type 0} (link : Link) (s s' : Jobs F J) (r : Result A)
      → Waits s
      → Waits s'
      → Waits (send link s (r, s')).1
  send-Waits up s s' r h h' = h'
  send-Waits down s s' r h h' = h
  send-Waits lost s s' r h h' = h'

  -- The row has another id than `k`.
  pub other_id : (k : ℕ) → (k == i) ≡ false → claimable i row ≡ true → has_id k row ≡ false
  other_id k n h = ground arith

  pub claim-Waits :
      (l m : Link) (k now : ℕ) (s : Jobs F J)
      → (k == i) ≡ false
      → Waits s
      → Waits (claim_job l m k now s).1
  unfolding claim_job
  claim-Waits l m k now s n h = send-Waits l s _ _ h (
      update-Waits (claimable k) (claimed now) s (λ j. refl)
        (let e = other_id k n h.waits in ground arith) h)

  pub reclaim-Waits :
      (l : Link) (lease now : ℕ) (s : Jobs F J) → Waits s → Waits (reclaim_stale l lease now s).1
  unfolding reclaim_stale
  reclaim-Waits l lease now s h =
      send-Waits l s _ _ h
        (update-Waits _ (reclaimed now) s (λ j. refl) (let e = h.waits in ground arith) h)

module _ {F J : Type 0} (i : ℕ) where
  -- A result of another job.
  abbrev pub NotOf : Result (Job F J) → Type 0
  NotOf (ok j) = (j.id == i) ≡ false
  NotOf (err e) = Unit

  refused-NotOf : (m : Link) (k : ℕ) (e : Error) (s : Jobs F J) → NotOf (after_claim m k (err e) s)
  unfolding after_claim
  refused-NotOf m k not_found s = refusal-NotOf (job_by_id m k s)
    where
      refusal-NotOf : (r : Result (Job F J)) → NotOf (refusal r)
      refusal-NotOf (ok j) = tt
      refusal-NotOf (err e) = tt
  refused-NotOf m k already_claimed s = tt
  refused-NotOf m k database s = tt

  pub claim-NotOf :
      (l m : Link) (k now : ℕ) (s : Jobs F J) → (k == i) ≡ false → NotOf (claim_job l m k now s).0
  unfolding claim_job
  claim-NotOf up m k now s n = elim (Option-cases (find (claimable k) s)) [
    | inl gone ↦ rw gone (refused-NotOf m k not_found _)
    | inr (a, there) ↦ rw there (ground (arith, passes-find (claimable k) s there))
  ]
  claim-NotOf down m k now s n = refused-NotOf m k database s
  claim-NotOf lost m k now s n =
      refused-NotOf m k database (update_where (claimable k) (claimed now) s)
