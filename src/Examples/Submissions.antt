-- ===== src/Examples/Submissions.antt =====
-- A job's way through the table, and submissions to the API.
use mathlib.Core.List.{Perm}
use queryforge.Prelude.{
  ◌⊎◌, ltb, ◌++◌, ◌≤◌, ◌≡◌, refl, [], ◌∷◌, List, Bytes, codes, length, bytes_eq,
}
use queryforge.Prelude.Int.{pos, ℤ, negsuc}
use queryforge.Prelude.Float.{thousandths}
use queryforge.Prelude.Sort.{IsSorted}
use queryforge.Store.{
  Job, up, lost, ok, new_job, insert_job, after_insert, create_job, claim_job, after_claim,
  mark_failure, reclaim_stale,
}
use queryforge.Store.Lifecycle.{apply, apply_all}
use queryforge.Store.Attempts.{times_handed, times_handed-bounded}
use queryforge.Store.Listing.{list_jobs, asked, list_jobs-IsPage}
use queryforge.Engine.{done}
use queryforge.Sql.{Statement, Parsed}
use queryforge.Worker.{World}
use queryforge.Worker.Service.{happen_all}
use queryforge.Worker.Service.Waiting.{IsStranded}
use queryforge.Api.{Config, CreateRequest, create_optimization, submitted}
use queryforge.Api.Create.{IsAnswered, create_optimization-IsAnswered}
use queryforge.Api.Stranded.{queue_down, create_optimization-strands}
use queryforge.Examples.Data.{statement_of, job, original, parse}
use queryforge.Examples.Jobs.{history}
use queryforge.Examples.Service.{later}

times_handed-bounded_example : times_handed 7 thousandths history [] ≤ 3
unfolding apply_all apply create_job new_job insert_job after_insert claim_job after_claim
    mark_failure reclaim_stale
times_handed-bounded_example = times_handed-bounded 7 thousandths history _ refl

list_jobs-IsPage_example :
    (js : List (Job ℤ Bytes)) × (rest : List (Job ℤ Bytes)) × (list_jobs up
        (codes "queued")
        (negsuc 0)
        (job ∷ [])
      ≡ ok js)
    × (length js ≤ 200)
    × IsSorted (λ (a b : Job ℤ Bytes). ltb b.created_at a.created_at) (js ++ rest)
    × Perm (js ++ rest) (asked (codes "queued") (job ∷ []))
    × ((rest ≡ []) ⊎ (length js ≡ 50))
list_jobs-IsPage_example = list_jobs-IsPage (codes "queued") (negsuc 0) (job ∷ [])

abbrev config : Config
config = record {
  target_dialect = [];
  target_dsn = codes "postgres://h/d";
  max_delivery_attempt = pos 3;
}

abbrev submission : CreateRequest
submission = record { sql = original; idempotency_key = [] }

-- One parser for every dialect.
abbrev by_parse : Bytes → Bytes → Parsed Statement
by_parse d sql = parse sql

abbrev empty : World ℤ Bytes
empty = record { jobs = []; history = []; messages = [] }

create_optimization-IsAnswered_example : IsAnswered 5 empty (
    create_optimization thousandths config by_parse
      (record (queue_down 7 5) { publish_link = lost })
      (done submission)
      empty)
create_optimization-IsAnswered_example =
    create_optimization-IsAnswered thousandths config by_parse
      (record (queue_down 7 5) { publish_link = lost }) (done submission) empty

create_optimization-strands_example :
    let r =
      create_optimization thousandths config by_parse (queue_down 7 5) (done submission) empty in
    (r.0.status ≡ 503)
    × IsStranded 7
        (new_job thousandths
          (submitted thousandths config by_parse submission (statement_of original))
          7
          5)
        (happen_all thousandths later r.1)
unfolding bytes_eq
create_optimization-strands_example =
    create_optimization-strands thousandths config by_parse submission _ 7 5 empty later refl refl
      refl tt
