-- ===== src/Store.antt =====
-- internal/store/store.go: the jobs table. Each method is an action on the database that answers a
-- result, and each SQL statement in it is a function on the table.
pub mod Lifecycle
pub mod Claims
pub mod Idempotency
pub mod Refinement
pub mod Attempts
pub mod Keys
pub mod Listing
use queryforge.Prelude.{
  ℕ, ◌+◌, ◌-◌, Bool, true, false, ◌&&◌, ◌||◌, Option, none, some, List, [], ◌∷◌, ◌++◌, find,
  update_where, count_of, take, length, Bytes, codes, bytes_eq, ltb, leb, ◌==◌, if◌then◌else◌,
}
use queryforge.Prelude.Float.{FloatOps}
use queryforge.Prelude.Int.{ℤ, pos, ltb_ℤ, is_zero}

-- the `Status…` constants
pub data Status : Type 0 where
  queued running retrying succeeded failed : Status

abbrev pub is_queued : Status → Bool
is_queued queued = true
is_queued _ = false

abbrev pub is_running : Status → Bool
is_running running = true
is_running _ = false

abbrev pub is_retrying : Status → Bool
is_retrying retrying = true
is_retrying _ = false

-- A row of optimization_jobs, with the report as JSON of type `J` and float64 columns of type `F`.
-- A UUID is a number, and 0 is uuid.Nil; a time is a number of seconds.
pub record Job (F J : Type 0) : Type 0 where
  pub id : ℕ
  pub idempotency_key : Bytes
  pub sql : Bytes
  pub fingerprint : Bytes
  pub status : Status
  pub attempts : ℕ
  pub max_attempts : ℤ
  pub last_error : Bytes
  pub report : Option J
  pub baseline_ms : F
  pub best_ms : F
  pub improvement_pct : F
  pub duration_ms : ℕ
  pub created_at : ℕ
  pub updated_at : ℕ
  pub started_at : Option ℕ
  pub finished_at : Option ℕ

-- The jobs table.
abbrev pub Jobs : Type 0 → Type 0 → Type 0
Jobs F J = List (Job F J)

-- `database` stands for any error of the driver.
pub data Error : Type 0 where
  not_found already_claimed database : Error

pub data Result (A : Type 0) : Type 0 where
  ok : A → Result A
  err : Error → Result A

-- What becomes of one statement: it runs, it does not reach the server, or it runs and its answer
-- is lost.
pub data Link : Type 0 where
  up down lost : Link

abbrev pub send : {S A : Type 0} → Link → S → Result A × S → Result A × S
send up s answer = answer
send down s answer = (err database, s)
send lost s answer = (err database, answer.1)

-- scanJob
abbrev pub scan_job : {A : Type 0} → Option A → Result A
scan_job none = err not_found
scan_job (some j) = ok j

-- truncate; the marker is the three bytes of "…"
unfoldable pub truncate : Bytes → ℕ → Bytes
truncate s n = if leb (length s) n then s else take n s ++ (226 ∷ 128 ∷ 166 ∷ [])

-- started_at < now() - lease; a NULL start is never before it.
abbrev pub is_before : Option ℕ → ℕ → ℕ → Bool
is_before none now lease = false
is_before (some t) now lease = ltb (t + lease) now

abbrev pub lease_expired : Bytes
lease_expired = codes "worker lease expired"

module _ {F J : Type 0} where
  abbrev pub has_id : ℕ → Job F J → Bool
  has_id i j = j.id == i

  abbrev pub has_key : Bytes → Job F J → Bool
  has_key k j = bytes_eq j.idempotency_key k

  abbrev pub claimable : ℕ → Job F J → Bool
  claimable i j = has_id i j && (is_queued j.status || is_retrying j.status)

  -- The row that ClaimJob's UPDATE leaves.
  abbrev pub claimed : ℕ → Job F J → Job F J
  claimed now j = record j {
    status = running;
    attempts = j.attempts + 1;
    started_at = some now;
    updated_at = now;
  }

  -- attempts < max_attempts
  abbrev pub has_room : Job F J → Bool
  has_room j = ltb_ℤ (pos j.attempts) j.max_attempts

  -- CASE WHEN attempts < max_attempts THEN 'retrying' ELSE 'failed' END
  abbrev pub after_failure : Job F J → Status
  after_failure j = if has_room j then retrying else failed

  -- The row that MarkFailure's UPDATE leaves.
  abbrev pub failed_once : Bytes → ℕ → Job F J → Job F J
  failed_once cause now j = record j {
    status = after_failure j;
    last_error = truncate cause 4000;
    finished_at = if has_room j then none else some now;
    updated_at = now;
  }

  abbrev pub is_stale : ℕ → ℕ → Job F J → Bool
  is_stale now lease j = is_running j.status && is_before j.started_at now lease

  abbrev pub reclaimed : ℕ → Job F J → Job F J
  reclaimed now j = record j {
    status = after_failure j;
    last_error = lease_expired;
    updated_at = now;
  }

  -- The row that CompleteJob's UPDATE leaves.
  abbrev pub completed : J → F → F → F → ℕ → ℕ → Job F J → Job F J
  completed report base best improvement duration now j = record j {
    status = succeeded;
    report = some report;
    baseline_ms = base;
    best_ms = best;
    improvement_pct = improvement;
    duration_ms = duration;
    last_error = [];
    finished_at = some now;
    updated_at = now;
  }

module _ {F J : Type 0} where
  -- JobByID
  unfoldable pub job_by_id : Link → ℕ → Jobs F J → Result (Job F J)
  job_by_id link i s = (send link s (scan_job (find (has_id i) s), s)).0

  abbrev pub refusal : Result (Job F J) → Result (Job F J)
  refusal (ok j) = err already_claimed
  refusal (err e) = err not_found

  -- The last step of ClaimJob: no row came back, so the job is looked up to tell the two cases
  -- apart.
  unfoldable pub after_claim : Link → ℕ → Result (Job F J) → Jobs F J → Result (Job F J)
  unfolding job_by_id
  after_claim link i (err not_found) s = refusal (job_by_id link i s)
  after_claim link i r s = r

  -- ClaimJob; the links are those of its two statements.
  unfoldable pub claim_job : Link → Link → ℕ → ℕ → Jobs F J → Result (Job F J) × Jobs F J
  unfolding after_claim
  claim_job first second i now s =
      let row : Option (Job F J) = elim (find (claimable i) s) [
        | none ↦ none
        | some j ↦ some (claimed now j)
      ] in
      let (r, s') = send first s (scan_job row, update_where (claimable i) (claimed now) s) in
      (after_claim second i r s', s')

  -- CompleteJob, for a report that has been marshalled.
  unfoldable pub complete_job :
      Link → ℕ → J → F → F → F → ℕ → ℕ → Jobs F J → Result (Unit {0}) × Jobs F J
  complete_job link i report base best improvement duration now s =
      send link s
        (ok tt, update_where (has_id i) (completed report base best improvement duration now) s)

  -- MarkFailure; the answer is `willRetry`, which is false beside an error.
  unfoldable pub mark_failure : Link → ℕ → Bytes → ℕ → Jobs F J → Result Bool × Jobs F J
  mark_failure link i cause now s =
      let answer : Result Bool = elim (find (has_id i) s) [
        | none ↦ err not_found
        | some j ↦ ok (is_retrying (after_failure j))
      ] in
      send link s (answer, update_where (has_id i) (failed_once cause now) s)

  -- ReclaimStale
  unfoldable pub reclaim_stale : Link → ℕ → ℕ → Jobs F J → Result ℕ × Jobs F J
  reclaim_stale link lease now s =
      send link s
        (ok (count_of (is_stale now lease) s), update_where (is_stale now lease) (reclaimed now) s)

  -- The row of CreateJob's INSERT: the other columns have the defaults of schema.sql.
  unfoldable pub new_job : FloatOps F → Job F J → ℕ → ℕ → Job F J
  new_job fl j fresh now = record {
    id = if j.id == 0 then fresh else j.id;
    idempotency_key = j.idempotency_key;
    sql = j.sql;
    fingerprint = j.fingerprint;
    status = queued;
    attempts = 0;
    max_attempts = if is_zero j.max_attempts then pos 3 else j.max_attempts;
    last_error = [];
    report = none;
    baseline_ms = fl.lit 0;
    best_ms = fl.lit 0;
    improvement_pct = fl.lit 0;
    duration_ms = 0;
    created_at = now;
    updated_at = now;
    started_at = none;
    finished_at = none;
  }

  -- The INSERT … ON CONFLICT (idempotency_key) DO NOTHING RETURNING: a row with the same key is no
  -- error and gives no row, one with the same primary key is an error.
  abbrev pub insert_row :
      Option (Job F J) → Option (Job F J) → Job F J → Jobs F J → Result (Job F J) × Jobs F J
  insert_row (some j) with_id row s = (err not_found, s)
  insert_row none (some j) row s = (err database, s)
  insert_row none none row s = (ok row, s ++ row ∷ [])

  unfoldable pub insert_job : Job F J → Jobs F J → Result (Job F J) × Jobs F J
  insert_job row s =
      insert_row (find (has_key row.idempotency_key) s) (find (has_id row.id) s) row s

  -- The end of CreateJob: the job and whether it was created.
  abbrev pub existing : Result (Job F J) → Result (Job F J × Bool)
  existing (ok j) = ok (j, false)
  existing (err e) = err e

  unfoldable pub after_insert : Link → Bytes → Result (Job F J) → Jobs F J → Result (Job F J × Bool)
  after_insert link key (ok j) s = ok (j, true)
  after_insert link key (err not_found) s =
      existing (send link s (scan_job (find (has_key key) s), s)).0
  after_insert link key (err e) s = err e

  -- CreateJob; `fresh` is the UUID that the library draws.
  unfoldable pub create_job :
      FloatOps F → Link → Link → Job F J → ℕ → ℕ → Jobs F J → Result (Job F J × Bool) × Jobs F J
  unfolding new_job insert_job after_insert
  create_job fl first second j fresh now s =
      let (r, s') = send first s (insert_job (new_job fl j fresh now) s) in
      (after_insert second j.idempotency_key r s', s')
