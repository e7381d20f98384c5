-- ===== src/Api/Create.antt =====
-- internal/api/server.go, createOptimization: what a submission leaves in the table and in the topics.
use queryforge.Prelude.{
  ℕ, ◌≡◌, refl, ◌⊎◌, inl, inr, Bool, true, false, Option, none, some, [], ◌∷◌, ◌++◌, Bytes,
}
use queryforge.Prelude.Float.{FloatOps}
use queryforge.Store.{
  Job, Jobs, queued, Error, Result, ok, err, Link, up, down, lost, create_job, new_job, insert_job,
  insert_row, after_insert, existing,
}
use queryforge.Engine.{Outcome, done, fault}
use queryforge.Sql.{Statement, not_read_only, unparseable, Parsed, parsed, refused}
use queryforge.Queue.{jobs, publish}
use queryforge.Worker.{World}
use queryforge.Api.{
  Config, dialect, CreateRequest, Conditions, Response, first_request, submitted, after_publish,
  after_create, create_parsed, create_optimization,
}

module _ {F J : Type 0} (fl : FloatOps F) where
  -- What CreateJob comes to: a new row, a row that was there, or an error.
  abbrev Created : Jobs F J → Result (Job F J × Bool) × Jobs F J → Type 0
  Created s r =
      ((j : Job F J) × (r ≡ (ok (j, true), s ++ j ∷ [])) × (j.status ≡ queued))
      ⊎ (((j : Job F J) × (r ≡ (ok (j, false), s)))
          ⊎ ((e : Error) × (t : Jobs F J) × (r ≡ (err e, t))))

  looked_up : (s : Jobs F J) (r : Result (Job F J)) → Created s (existing r, s)
  looked_up s (ok j) = inr (inl (j, refl))
  looked_up s (err e) = inr (inr (e, s, refl))

  inserted :
      (second : Link) (row : Job F J) (s : Jobs F J) (key : Bytes)
      → row.status ≡ queued
      → (a b : Option (Job F J))
      → Created s (
        after_insert second key (insert_row a b row s).0 (insert_row a b row s).1,
        (insert_row a b row s).1,
      )
  unfolding after_insert
  inserted second row s key q (some j) b = looked_up s _
  inserted second row s key q none (some j) = inr (inr (_, s, refl))
  inserted second row s key q none none = inl (row, refl, q)

  create_job-Created :
      (first second : Link) (j : Job F J) (fresh now : ℕ) (s : Jobs F J)
      → Created s (create_job fl first second j fresh now s)
  unfolding create_job insert_job after_insert new_job
  create_job-Created up second j fresh now s =
      inserted second (new_job fl j fresh now) s j.idempotency_key refl _ _
  create_job-Created down second j fresh now s = inr (inr (_, s, refl))
  create_job-Created lost second j fresh now s = inr (inr (_, _, refl))

module _ {F J : Type 0} where
  -- What a submission may leave: with 202 one new row, queued, and behind the messages one that names
  -- it; with 503 the new row and that message or none; with 500 the messages as they were; and with
  -- any other status everything as it was.
  abbrev pub IsAnswered : ℕ → World F J → Response F J × World F J → Type 0
  IsAnswered now w (r, w') =
      ((j : Job F J) × (r.status ≡ 202)
        × (w'.jobs ≡ w.jobs ++ j ∷ [])
        × (j.status ≡ queued)
        × (w'.messages ≡ w.messages ++ (jobs, first_request now j) ∷ []))
      ⊎ (((j : Job F J) × (r.status ≡ 503)
            × (w'.jobs ≡ w.jobs ++ j ∷ [])
            × (j.status ≡ queued)
            × ((w'.messages ≡ w.messages)
                ⊎ (w'.messages ≡ w.messages ++ (jobs, first_request now j) ∷ [])))
          ⊎ (((r.status ≡ 500) × (w'.messages ≡ w.messages))
              ⊎ (((r.status ≡ 200) ⊎ ((r.status ≡ 400) ⊎ (r.status ≡ 422))) × (w' ≡ w))))

module _ {F J : Type 0} (fl : FloatOps F) (cfg : Config)
    (parse : Bytes → Bytes → Parsed Statement) where
  created-IsAnswered :
      (c : Conditions) (w : World F J) (j : Job F J)
      → j.status ≡ queued
      → IsAnswered c.now w
          (after_create fl cfg parse c (record w { jobs = w.jobs ++ j ∷ [] }) (ok (j, true)))
  unfolding after_create publish
  created-IsAnswered c w j q = go c.publish_link
    where
      go :
          (l : Link)
          → IsAnswered c.now w (
              after_publish fl cfg parse j
                (record w { jobs = w.jobs ++ j ∷ [] })
                (publish l jobs (first_request c.now j) w.messages))
      go up = inl (j, refl, refl, q, refl)
      go down = inr (inl (j, refl, refl, q, inl refl))
      go lost = inr (inl (j, refl, refl, q, inr refl))

  answered :
      (c : Conditions) (w : World F J) (r : Result (Job F J × Bool) × Jobs F J)
      → Created fl w.jobs r
      → IsAnswered c.now w (after_create fl cfg parse c (record w { jobs = r.1 }) r.0)
  unfolding after_create
  answered c w r (inl (j, e, q)) = rw e (created-IsAnswered c w j q)
  answered c w r (inr (inl (j, e))) = rw e (inr (inr (inr (inl refl, refl))))
  answered c w r (inr (inr (e, t, k))) = rw k (inr (inr (inl (refl, refl))))

  parsed-IsAnswered :
      (c : Conditions) (req : CreateRequest) (w : World F J) (p : Parsed Statement)
      → IsAnswered c.now w (create_parsed fl cfg parse c req w p)
  unfolding create_parsed
  parsed-IsAnswered c req w (refused (not_read_only why)) = inr (inr (inr (inr (inr refl), refl)))
  parsed-IsAnswered c req w (refused (unparseable why)) = inr (inr (inr (inr (inl refl), refl)))
  parsed-IsAnswered c req w (parsed st) = answered c w _ (
      create_job-Created fl c.insert_link c.lookup_link (submitted fl cfg parse req st) c.fresh
        c.now w.jobs)

  -- Whatever is submitted, and whatever becomes of the statements and the publication: an answer 202
  -- means that one row was added, queued, and one message, which names it; 503 that the row was added
  -- and the message may be missing; 500 that no message was added; and 200, 400 and 422, the only
  -- other answers, that neither the tables nor the topics changed.
  pub create_optimization-IsAnswered :
      (c : Conditions) (d : Outcome CreateRequest) (w : World F J)
      → IsAnswered c.now w (create_optimization fl cfg parse c d w)
  unfolding create_optimization
  create_optimization-IsAnswered c (fault e) w = inr (inr (inr (inr (inl refl), refl)))
  create_optimization-IsAnswered c (done req) w =
      parsed-IsAnswered c req w (parse (dialect cfg) req.sql)
