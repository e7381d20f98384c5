-- ===== src/Queue.antt =====
-- internal/queue/queue.go: the topics of the jobs and the backoff ladder. Kafka is the list of the
-- messages that no consumer has committed.
use queryforge.Prelude.{
  ℕ, zero, suc, ◌+◌, ◌/◌, ◌%◌, ◌≡◌, refl, Bool, true, false, Option, none, some, List, [], ◌∷◌,
  ◌++◌, Bytes, codes, ltb, get_elem?, ◌==◌, if◌then◌else◌,
}
use queryforge.Store.{Link, up, down, lost}

pub record OptimizeRequest : Type 0 where
  pub job_id : ℕ
  pub sql : Bytes
  pub attempt : ℕ
  -- `none` is the zero time
  pub not_before : Option ℕ
  pub last_error : Bytes
  pub enqueued_at : ℕ

-- RetryTiers, in seconds
abbrev pub retry_tiers : List ℕ
retry_tiers = 15 ∷ 120 ∷ []

-- The topics of the service: the jobs, the retry tier with a delay, and the dead letters.
pub data Topic : Type 0 where
  jobs dead : Topic
  retry : ℕ → Topic

decimal_onto : ℕ → ℕ → Bytes → Bytes
decimal_onto zero n acc = acc
decimal_onto (suc fuel) n acc =
    let rest = decimal_onto fuel (n / 10) ((48 + n % 10) ∷ acc) in
    if ltb n 10 then (48 + n) ∷ acc else rest

-- %d; as many rounds as the number has digits are enough, and n + 1 are as many.
unfoldable pub decimal : ℕ → Bytes
unfolding decimal_onto
decimal n = decimal_onto (n + 1) n []

-- The name of a topic, by the configured names of the job topic and of the dead letters.
unfoldable pub topic_name : Bytes → Bytes → Topic → Bytes
unfolding decimal
topic_name base dlq jobs = base
topic_name base dlq dead = dlq
topic_name base dlq (retry delay) = base ++ codes ".retry." ++ decimal delay ++ codes "s"

-- RetryTopic: the topic and its delay.
unfoldable pub retry_topic : ℕ → Option (Topic × ℕ)
retry_topic zero = none
retry_topic (suc n) = elim (get_elem? retry_tiers n) [ none ↦ none | some d ↦ some (retry d, d) ]

-- The topics of the tiers, as AllTopics asks for them.
abbrev pub tier_topics : List ℕ → List Topic
tier_topics [] = []
tier_topics (d ∷ ds) = retry d ∷ tier_topics ds

-- AllTopics
unfoldable pub all_topics : List Topic
all_topics = jobs ∷ dead ∷ tier_topics retry_tiers

abbrev pub Message : Type 0
Message = Topic × OptimizeRequest

-- (*Producer).Publish: whether it answered no error, and the messages after it.
unfoldable pub publish : Link → Topic → OptimizeRequest → List Message → Bool × List Message
publish up t req ms = (true, ms ++ (t, req) ∷ [])
publish down t req ms = (false, ms)
publish lost t req ms = (false, ms ++ (t, req) ∷ [])

abbrev pub same_topic : Topic → Topic → Bool
same_topic jobs jobs = true
same_topic dead dead = true
same_topic (retry a) (retry b) = a == b
same_topic _ _ = false

-- FetchMessage and CommitMessages: the first message of a topic, and the messages without it.
unfoldable pub fetch : Topic → List Message → Option (OptimizeRequest × List Message)
fetch t [] = none
fetch t ((u, req) ∷ ms) =
    let rest = fetch t ms in
    if same_topic u t
    then some (req, ms)
    else elim rest [ none ↦ none | some (r, others) ↦ some (r, (u, req) ∷ others) ]

-- The names of the topics, written out.
topic_names : topic_name (codes "sql") (codes "dlq") (retry 120) ≡ codes "sql.retry.120s"
unfolding topic_name
topic_names = refl
