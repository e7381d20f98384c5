-- ===== src/Api/Stranded.antt =====
-- internal/api/server.go, createOptimization: a submission whose message could not be published.
use queryforge.Prelude.{
  ℕ, ◌≡◌, refl, none, List, [], ◌∷◌, ◌++◌, Bytes, All, find, find-append_last, true, ==-refl,
}
use queryforge.Prelude.Float.{FloatOps}
use queryforge.Store.{
  Job, claimable, up, down, has_id, has_key, create_job, new_job, insert_job, after_insert,
}
use queryforge.Engine.{done}
use queryforge.Sql.{Statement, Parsed, parsed}
use queryforge.Queue.{publish}
use queryforge.Worker.{World}
use queryforge.Worker.Service.{Event, happen_all}
use queryforge.Worker.Service.Waiting.{IsStranded, Foreign}
use queryforge.Worker.Service.Stranded.{happen_all-IsStranded}
use queryforge.Api.{
  Config, dialect, CreateRequest, Conditions, submitted, key_of, after_create, create_parsed,
  create_optimization,
}

-- The database answers, and the queue is not reached.
abbrev pub queue_down : ℕ → ℕ → Conditions
queue_down fresh now = record {
  insert_link = up;
  lookup_link = up;
  publish_link = down;
  fresh = fresh;
  now = now;
}

new_row-Waits :
    (F J : Type 0) (fl : FloatOps F) (j : Job F J) (fresh now : ℕ)
    → j.id ≡ 0
    → (has_id fresh (new_job fl j fresh now) ≡ true)
      × (claimable fresh (new_job fl j fresh now) ≡ true)
unfolding new_job
new_row-Waits F J fl j fresh now e = (rw (e, ==-refl fresh) refl, rw (e, ==-refl fresh) refl)

module _ {F J : Type 0} (fl : FloatOps F) (cfg : Config)
    (parse : Bytes → Bytes → Parsed Statement) where
  -- What such a submission leaves.
  abbrev unqueued : CreateRequest → Statement → ℕ → ℕ → World F J → World F J
  unqueued req st fresh now w = record w {
    jobs = w.jobs ++ new_job fl (submitted fl cfg parse req st) fresh now ∷ [];
  }

  created_unqueued :
      (req : CreateRequest) (st : Statement) (fresh now : ℕ) (w : World F J)
      → find (has_key (key_of req st)) w.jobs ≡ none
      → find (has_id fresh) w.jobs ≡ none
      → let r = create_parsed fl cfg parse (queue_down fresh now) req w (parsed st) in
        (r.0.status ≡ 503) × (r.1 ≡ unqueued req st fresh now w)
  unfolding create_parsed create_job insert_job after_insert after_create publish new_job
  created_unqueued req st fresh now w k n = rw (k, n) (refl, refl)

  -- The row that such a submission records.
  abbrev pub recorded : CreateRequest → Statement → ℕ → ℕ → Job F J
  recorded req st fresh now = new_job fl (submitted fl cfg parse req st) fresh now

  unqueued-IsStranded :
      (req : CreateRequest) (st : Statement) (fresh now : ℕ) (w : World F J)
      → find (has_id fresh) w.jobs ≡ none
      → All (Foreign fresh) w.messages
      → IsStranded fresh (recorded req st fresh now) (unqueued req st fresh now w)
  unqueued-IsStranded req st fresh now w n m =
      let here = new_row-Waits F J fl (submitted fl cfg parse req st) fresh now refl in
      record {
        waiting = record {
          found = find-append_last (has_id fresh) w.jobs (recorded req st fresh now) n here.0;
          waits = here.1;
        };
        unnamed = m;
      }

  -- A submission that is recorded but not published, under a key and an id that are new and while no
  -- message names that id, answers 503, and its job is never run: its row is there as it was recorded,
  -- and no message names it, after any rounds of any workers, deaths, redeliveries and reclaims.
  pub create_optimization-strands :
      {X : Type 0} (req : CreateRequest) (st : Statement) (fresh now : ℕ) (w : World F J)
      (es : List (Event F J X))
      → parse (dialect cfg) req.sql ≡ parsed st
      → find (has_key (key_of req st)) w.jobs ≡ none
      → find (has_id fresh) w.jobs ≡ none
      → All (Foreign fresh) w.messages
      → let r = create_optimization fl cfg parse (queue_down fresh now) (done req) w in
        (r.0.status ≡ 503) × IsStranded fresh (recorded req st fresh now) (happen_all fl es r.1)
  unfolding create_optimization
  create_optimization-strands req st fresh now w es p k n m =
      let r = created_unqueued req st fresh now w k n in
      rw (p, r.1)
        (
          r.0,
          happen_all-IsStranded fresh (recorded req st fresh now) fl es
              (unqueued req st fresh now w) (unqueued-IsStranded req st fresh now w n m),
        )
