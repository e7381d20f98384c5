-- ===== src/Examples/Jobs.antt =====
-- The jobs table: claims, resubmissions and any operations on it.
use queryforge.Prelude.{◌≡◌, refl, true, false, [], ◌∷◌, List, All, codes, Bytes}
use queryforge.Prelude.Int.{ℤ, pos}
use queryforge.Prelude.Float.{thousandths}
use queryforge.Store.{
  Job, already_claimed, ok, err, up, lost, claimed, new_job, insert_job, create_job, claim_job,
  after_claim, after_insert,
}
use queryforge.Store.Lifecycle.{
  Op, create, claim, complete, fail, reclaim, apply_all, IsSound, jobs_stay-IsSound,
}
use queryforge.Store.Claims.{claim-excludes-claim}
use queryforge.Store.Idempotency.{create_job-is-idempotent}
use queryforge.Examples.Data.{job}

-- Another worker's claim, whose answer is lost, a failure of another job, and a completion.
abbrev between : List (Op ℤ Bytes)
between =
    claim lost up 7 60
    ∷ fail up 8 (codes "x") 61
    ∷ complete up 7 [] (pos 1) (pos 1) (pos 0) 5 62
    ∷ []

claim-excludes-claim_example :
    (claim_job up up 7 90 (apply_all thousandths between (claim_job up up 7 50 (job ∷ [])).1)).0
    ≡ err already_claimed
unfolding claim_job after_claim
claim-excludes-claim_example =
    claim-excludes-claim 7 thousandths up up 50 90 (job ∷ []) between (claimed 50 job) refl refl

abbrev pub history : List (Op ℤ Bytes)
history =
    create up up job 7 1
    ∷ claim up up 7 2
    ∷ fail up 7 (codes "x") 3
    ∷ claim lost up 7 20
    ∷ reclaim up 60 100
    ∷ []

jobs_stay-IsSound_example : All IsSound (apply_all thousandths history [])
jobs_stay-IsSound_example = jobs_stay-IsSound thousandths history

create_job-is-idempotent_example :
    let t = apply_all thousandths between (create_job thousandths up up job 7 1 []).1 in
    (b : Job ℤ Bytes) × (create_job thousandths up up job 9 5 t ≡ (ok (b, false), t)) × (b.id ≡ 7)
unfolding create_job new_job insert_job after_insert
create_job-is-idempotent_example =
    create_job-is-idempotent thousandths job job 7 9 1 5 [] (new_job thousandths job 7 1) true
      between refl refl
