-- ===== src/Store/Refinement.antt =====
-- One job as its clients see it, and the operations of the jobs table as steps of that view.
use queryforge.Prelude.{ℕ, suc, ◌-◌, ◌≡◌, Option, none, some, find}
use queryforge.Prelude.Int.{pos_part}
use queryforge.Store.{Status, queued, running, retrying, succeeded, failed, Job, Jobs, has_id}

-- The number is that of the attempts that are left.
pub data View : Type 0 where
  absent : View
  waiting working finished given_up : ℕ → View

abbrev pub left : View → Option ℕ
left absent = none
left (waiting n) = some n
left (working n) = some n
left (finished n) = some n
left (given_up n) = some n

-- The steps that the contract of the queue allows: a job is entered with an attempt left, a claim
-- takes one, a report ends it, and a job that is given back waits while an attempt is left. A job
-- whose limit is negative is entered without an attempt, and its first claim takes none.
pub data JobStep : View → View → Type 0 where
  stays : {v : View} → JobStep v v
  entered : {n : ℕ} → JobStep absent (waiting (suc n))
  taken : {n : ℕ} → JobStep (waiting (suc n)) (working n)
  entered_without : JobStep absent (waiting 0)
  taken_without : JobStep (waiting 0) (working 0)
  ended : {v : View} {n : ℕ} → left v ≡ some n → JobStep v (finished n)
  given_back : {v : View} {n : ℕ} → left v ≡ some (suc n) → JobStep v (waiting (suc n))
  dropped : {v : View} → left v ≡ some 0 → JobStep v (given_up 0)

abbrev by_status : Status → ℕ → View
by_status queued n = waiting n
by_status running n = working n
by_status retrying n = waiting n
by_status succeeded n = finished n
by_status failed n = given_up n

module _ {F J : Type 0} where
  abbrev pub limit : Job F J → ℕ
  limit j = pos_part j.max_attempts

  abbrev pub view_of : Option (Job F J) → View
  view_of none = absent
  view_of (some j) = by_status j.status (limit j - j.attempts)

  -- What the table says of job `i`.
  abbrev pub view : ℕ → Jobs F J → View
  view i s = view_of (find (has_id i) s)
