-- ===== src/Worker/Service/Stranded.antt =====
-- A job that waits without a message waits forever.
use queryforge.Prelude.{ℕ, Bool, true, false, Option, none, some, List, [], ◌∷◌}
use queryforge.Prelude.Float.{FloatOps}
use queryforge.Store.{Job, Link, up, down, lost}
use queryforge.Queue.{OptimizeRequest, jobs, retry, Message, fetch}
use queryforge.Worker.{Fate, World}
use queryforge.Worker.Service.{
  Event, deliver, die, forward, reclaim, consume_one, die_one, forward_one, happen, happen_all,
}
use queryforge.Worker.Service.Waiting.{
  IsStranded, publish-Foreign, Fetched, fetch-Foreign, claim-Waits, reclaim-Waits,
}
use queryforge.Worker.Service.Handling.{handle-IsStranded}

module _ {F J : Type 0} (i : ℕ) (row : Job F J) where
  die-IsStranded :
      (l : Link) (now : ℕ) (w : World F J) (o : Option (OptimizeRequest × List Message))
      → Fetched i o
      → IsStranded i row w
      → IsStranded i row (die_one l now w o)
  die-IsStranded l now w none g h = h
  die-IsStranded l now w (some (req, rest)) g h = record {
    waiting = claim-Waits i row l up req.job_id now w.jobs g.0 h.waiting;
    unnamed = h.unnamed;
  }

  forward-IsStranded :
      (b : Bool) (l : Link) (w : World F J) (o : Option (OptimizeRequest × List Message))
      → Fetched i o
      → IsStranded i row w
      → IsStranded i row (forward_one b l w o)
  forward-IsStranded b l w none g h = h
  forward-IsStranded true up w (some (req, rest)) g h = record {
    waiting = h.waiting;
    unnamed = publish-Foreign i up jobs _ rest g.0 g.1;
  }
  forward-IsStranded false up w (some (req, rest)) g h = record {
    waiting = h.waiting;
    unnamed = publish-Foreign i up jobs _ w.messages g.0 h.unnamed;
  }
  forward-IsStranded b down w (some (req, rest)) g h = record {
    waiting = h.waiting;
    unnamed = publish-Foreign i down jobs _ w.messages g.0 h.unnamed;
  }
  forward-IsStranded b lost w (some (req, rest)) g h = record {
    waiting = h.waiting;
    unnamed = publish-Foreign i lost jobs _ w.messages g.0 h.unnamed;
  }

module _ {F J X : Type 0} (i : ℕ) (row : Job F J) (fl : FloatOps F) where
  consume-IsStranded :
      (b : Bool) (fate : Fate F J X) (w : World F J) (o : Option (OptimizeRequest × List Message))
      → Fetched i o
      → IsStranded i row w
      → IsStranded i row (consume_one fl b fate w o)
  consume-IsStranded b fate w none g h = h
  consume-IsStranded true fate w (some (req, rest)) g h =
      handle-IsStranded i row fl fate req (record w { messages = rest }) g.0
        (record { waiting = h.waiting; unnamed = g.1 })
  consume-IsStranded false fate w (some (req, rest)) g h =
      handle-IsStranded i row fl fate req w g.0 h

  happen-IsStranded :
      (e : Event F J X) (w : World F J) → IsStranded i row w → IsStranded i row (happen fl e w)
  unfolding happen
  happen-IsStranded (deliver b fate) w h =
      consume-IsStranded b fate w (fetch jobs w.messages)
        (fetch-Foreign i jobs w.messages h.unnamed) h
  happen-IsStranded (die l now) w h =
      die-IsStranded i row l now w (fetch jobs w.messages)
        (fetch-Foreign i jobs w.messages h.unnamed) h
  happen-IsStranded (forward d b l) w h =
      forward-IsStranded i row b l w (fetch (retry d) w.messages)
        (fetch-Foreign i (retry d) w.messages h.unnamed) h
  happen-IsStranded (reclaim l lease now) w h = record {
    waiting = reclaim-Waits i row l lease now w.jobs h.waiting;
    unnamed = h.unnamed;
  }

  -- A job that waits while no message names it, as ReclaimStale leaves one whose message was dropped,
  -- is never run: its row is there, unchanged and with no more attempts, and no message names it,
  -- after any rounds of any workers, deaths, redeliveries and reclaims.
  pub happen_all-IsStranded :
      (es : List (Event F J X)) (w : World F J)
      → IsStranded i row w
      → IsStranded i row (happen_all fl es w)
  unfolding happen_all
  happen_all-IsStranded [] w h = h
  happen_all-IsStranded (e ∷ es) w h =
      happen_all-IsStranded es (happen fl e w) (happen-IsStranded e w h)
