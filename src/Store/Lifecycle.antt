-- ===== src/Store/Lifecycle.antt =====
-- What holds of every row of the jobs table between two operations, whatever the order of the
-- operations and whatever becomes of their statements.
use queryforge.Prelude.{
  ℕ, zero, suc, ◌≤◌, ◌<◌, ◌≡◌, true, false, List, [], ◌∷◌, All, All-append, All-update_where, Bytes,
  arith,
}
use queryforge.Prelude.Float.{FloatOps}
use queryforge.Prelude.Int.{ℤ, pos, negsuc}
use queryforge.Store.{
  queued, running, retrying, failed, Job, has_room, Jobs, Result, Link, up, down, lost, send,
  claimable, claimed, reclaimed, failed_once, completed, create_job, new_job, insert_job, claim_job,
  complete_job, mark_failure, reclaim_stale,
}

-- The claims that a limit allows: a first one is not refused, whatever the limit.
abbrev pub allowed : ℤ → ℕ
allowed (pos zero) = 1
allowed (pos (suc n)) = suc n
allowed (negsuc n) = 1

-- `attempts` against `max_attempts` in each status.
pub record IsSound {F J : Type 0} (j : Job F J) : Type 0 where
  pub capped : j.attempts ≤ allowed j.max_attempts
  pub fresh : j.status ≡ queued → j.attempts ≡ 0
  pub started : j.status ≡ running → 0 < j.attempts
  pub retriable : j.status ≡ retrying → has_room j ≡ true
  pub spent : j.status ≡ failed → has_room j ≡ false

-- An operation with its arguments and the fate of its statements.
pub data Op (F J : Type 0) : Type 0 where
  create : Link → Link → Job F J → ℕ → ℕ → Op F J
  claim : Link → Link → ℕ → ℕ → Op F J
  complete : Link → ℕ → J → F → F → F → ℕ → ℕ → Op F J
  fail : Link → ℕ → Bytes → ℕ → Op F J
  reclaim : Link → ℕ → ℕ → Op F J

module _ {F J : Type 0} where
  unfoldable pub apply : FloatOps F → Op F J → Jobs F J → Jobs F J
  apply fl (create l m j fresh now) s = (create_job fl l m j fresh now s).1
  apply fl (claim l m i now) s = (claim_job l m i now s).1
  apply fl (complete l i report a b c d now) s = (complete_job l i report a b c d now s).1
  apply fl (fail l i cause now) s = (mark_failure l i cause now s).1
  apply fl (reclaim l lease now) s = (reclaim_stale l lease now s).1

  unfoldable pub apply_all : FloatOps F → List (Op F J) → Jobs F J → Jobs F J
  unfolding apply
  apply_all fl [] s = s
  apply_all fl (o ∷ os) s = apply_all fl os (apply fl o s)

module _ {F J : Type 0} where
  -- A statement leaves the table as it was or as its effect says.
  pub All-send :
      {A : Type 0} (P : Job F J → Type 0) (link : Link) (s s' : Jobs F J) (r : Result A)
      → All P s
      → All P s'
      → All P (send link s (r, s')).1
  All-send P up s s' r h h' = h'
  All-send P down s s' r h h' = h
  All-send P lost s s' r h h' = h'

  claimed-IsSound :
      (i now : ℕ) (j : Job F J) → IsSound j → claimable i j ≡ true → IsSound (claimed now j)
  claimed-IsSound i now j h c = ground arith

  failed_once-IsSound :
      (cause : Bytes) (now : ℕ) (j : Job F J) → IsSound j → IsSound (failed_once cause now j)
  failed_once-IsSound cause now j h = ground arith

  reclaimed-IsSound : (now : ℕ) (j : Job F J) → IsSound j → IsSound (reclaimed now j)
  reclaimed-IsSound now j h = ground arith

  completed-IsSound :
      (report : J) (a b c : F) (d now : ℕ) (j : Job F J)
      → IsSound j
      → IsSound (completed report a b c d now j)
  completed-IsSound report a b c d now j h = ground arith

  new_job-IsSound :
      (fl : FloatOps F) (j : Job F J) (fresh now : ℕ) → IsSound (new_job fl j fresh now)
  unfolding new_job
  new_job-IsSound fl j fresh now = ground arith

  insert_job-IsSound :
      (row : Job F J) (s : Jobs F J)
      → IsSound row
      → All IsSound s
      → All IsSound (insert_job row s).1
  unfolding insert_job
  insert_job-IsSound row s hr h = ground (arith, All-append IsSound s (row ∷ []) h (hr, tt))

  apply-IsSound :
      (fl : FloatOps F) (o : Op F J) (s : Jobs F J) → All IsSound s → All IsSound (apply fl o s)
  unfolding apply create_job claim_job complete_job mark_failure reclaim_stale
  apply-IsSound fl (create l m j fresh now) s h =
      let row = new_job fl j fresh now in
      All-send IsSound l s (insert_job row s).1 (insert_job row s).0 h
        (insert_job-IsSound row s (new_job-IsSound fl j fresh now) h)
  apply-IsSound fl (claim l m i now) s h =
      All-send IsSound l s _ _ h (All-update_where IsSound _ _ s (claimed-IsSound i now) h)
  apply-IsSound fl (complete l i report a b c d now) s h =
      All-send IsSound l s _ _ h (
        All-update_where IsSound _ _ s (λ j sound _. completed-IsSound report a b c d now j sound)
          h)
  apply-IsSound fl (fail l i cause now) s h =
      All-send IsSound l s _ _ h
        (All-update_where IsSound _ _ s (λ j sound _. failed_once-IsSound cause now j sound) h)
  apply-IsSound fl (reclaim l lease now) s h =
      All-send IsSound l s _ _ h
        (All-update_where IsSound _ _ s (λ j sound _. reclaimed-IsSound now j sound) h)

  apply_all-IsSound :
      (fl : FloatOps F) (os : List (Op F J)) (s : Jobs F J)
      → All IsSound s
      → All IsSound (apply_all fl os s)
  unfolding apply_all
  apply_all-IsSound fl [] s h = h
  apply_all-IsSound fl (o ∷ os) s h =
      apply_all-IsSound fl os (apply fl o s) (apply-IsSound fl o s h)

  -- After any operations on an empty table, in any order, concurrent or repeated, and whatever
  -- statements were lost, every row is sound: a job never has more attempts than `max_attempts`, or
  -- than one where that limit is below one, a queued job has none, a running job has one at least, a
  -- retrying job has one left, and a failed job has none left.
  pub jobs_stay-IsSound : (fl : FloatOps F) (os : List (Op F J)) → All IsSound (apply_all fl os [])
  jobs_stay-IsSound fl os = apply_all-IsSound fl os [] tt
