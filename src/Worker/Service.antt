-- ===== src/Worker/Service.antt =====
-- cmd/worker/main.go: the rounds of consumeMain, consumeRetry and reclaimLoop, and a worker that dies
-- between the claim and the report, as events on the tables and the topics.
pub mod Waiting
pub mod Handling
pub mod Stranded
use queryforge.Prelude.{ℕ, Bool, true, false, Option, none, some, List, [], ◌∷◌}
use queryforge.Prelude.Float.{FloatOps}
use queryforge.Store.{Link, up, down, lost, claim_job, reclaim_stale}
use queryforge.Queue.{OptimizeRequest, jobs, retry, Message, publish, fetch}
use queryforge.Worker.{Fate, World, handle}

-- A round that delivers the first message of a topic says whether its commit succeeds; without it the
-- message is delivered again.
pub data Event (F J X : Type 0) : Type 0 where
  deliver : Bool → Fate F J X → Event F J X
  die : Link → ℕ → Event F J X
  forward : ℕ → Bool → Link → Event F J X
  reclaim : Link → ℕ → ℕ → Event F J X

-- The messages after a round, by whether it committed.
abbrev kept : Bool → List Message → List Message → List Message
kept true rest ms = rest
kept false rest ms = ms

module _ {F J : Type 0} where
  -- A worker claims and dies.
  abbrev pub die_one : Link → ℕ → World F J → Option (OptimizeRequest × List Message) → World F J
  die_one l now w none = w
  die_one l now w (some (req, rest)) = record w { jobs = (claim_job l up req.job_id now w.jobs).1 }

  -- consumeRetry with a message: it is republished, and committed only if that succeeded.
  abbrev pub forward_one :
      Bool → Link → World F J → Option (OptimizeRequest × List Message) → World F J
  forward_one committed link w none = w
  forward_one committed up w (some (req, rest)) = record w {
    messages =
        (publish up jobs (record req { not_before = none }) (kept committed rest w.messages)).1;
  }
  forward_one committed link w (some (req, rest)) = record w {
    messages = (publish link jobs (record req { not_before = none }) w.messages).1;
  }

module _ {F J X : Type 0} (fl : FloatOps F) where
  -- consumeMain with a message: the commit comes after the handling, and drops only that message.
  abbrev pub consume_one :
      Bool → Fate F J X → World F J → Option (OptimizeRequest × List Message) → World F J
  consume_one committed fate w none = w
  consume_one committed fate w (some (req, rest)) =
      handle fl fate req (record w { messages = kept committed rest w.messages })

  -- One event.
  unfoldable pub happen : Event F J X → World F J → World F J
  happen (deliver committed fate) w = consume_one committed fate w (fetch jobs w.messages)
  happen (die l now) w = die_one l now w (fetch jobs w.messages)
  happen (forward delay committed link) w =
      forward_one committed link w (fetch (retry delay) w.messages)
  happen (reclaim l lease now) w = record w { jobs = (reclaim_stale l lease now w.jobs).1 }

  unfoldable pub happen_all : List (Event F J X) → World F J → World F J
  unfolding happen
  happen_all [] w = w
  happen_all (e ∷ es) w = happen_all es (happen e w)
