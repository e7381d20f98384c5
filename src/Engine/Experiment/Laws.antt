-- ===== src/Engine/Experiment/Laws.antt =====
-- The laws of PostgreSQL's transactions that the methods of internal/engine/postgres.go rely on.
use queryforge.Prelude.{
  ℕ, suc, ◌≡◌, Bool, true, false, not, ◌&&◌, ◌||◌, Bytes, codes, contains, has_prefix, to_lower,
}
use queryforge.Engine.{Outcome, done, fault}
use queryforge.Engine.Experiment.{Driver, Action}

-- What can be seen of the server and the pool: the connections that are lent, whether the
-- transaction is open, and the committed catalog.
pub record View (E C : Type 0) : Type 0 where
  pub lent : E → ℕ
  pub in_tx : E → Bool
  pub catalog : E → C

-- `b` looks like `a`, with a given number of lent connections and a given openness.
pub record Looks {E C : Type 0} (w : View E C) (a : E) (lent : ℕ) (tx : Bool) (b : E) : Type 0 where
  pub lends : w.lent b ≡ lent
  pub tx_state : w.in_tx b ≡ tx
  pub committed : w.catalog b ≡ w.catalog a

-- A call whose two outcomes look as given.
abbrev pub Yields : {A E C : Type 0} → View E C → E → ℕ → Bool → ℕ → Bool → Outcome A × E → Type 0
Yields w a n t m u (done x, b) = Looks w a n t b
Yields w a n t m u (fault x, b) = Looks w a m u b

-- A text of one statement that sets a local parameter or creates an index: it has no semicolon, so that
-- no COMMIT or ROLLBACK follows in it.
unfoldable pub is_plain : Bytes → Bool
unfolding to_lower has_prefix contains
is_plain s =
    not (contains s (codes ";"))
    && (has_prefix (to_lower s) (codes "set local ")
        || (has_prefix (to_lower s) (codes "create index ")
            || has_prefix (to_lower s) (codes "create unique index ")))

-- A query that MeasureInTx sends; a query is one statement, since pgx prepares it.
unfoldable pub is_explain : Bytes → Bool
unfolding has_prefix
is_explain s = has_prefix s (codes "EXPLAIN (ANALYZE, BUFFERS, FORMAT JSON, TIMING, COSTS) ")

-- The documented behaviour of the pool and of transactions: a failed acquire or begin changes
-- nothing that is seen, a plain statement or an EXPLAIN inside an open transaction commits nothing and
-- leaves it open, failing or not, and a rollback closes the transaction and commits nothing.
pub record IsTransactional {E C : Type 0} (d : Driver E) (w : View E C) : Type 0 where
  pub acquires :
      (e : E) → Yields w e (suc (w.lent e)) (w.in_tx e) (w.lent e) (w.in_tx e) (d.acquire e)
  pub begins : (e : E) → Yields w e (w.lent e) true (w.lent e) (w.in_tx e) (d.begin e)
  pub begins_read_only :
      (e : E) → Yields w e (w.lent e) true (w.lent e) (w.in_tx e) (d.begin_read_only e)
  pub executes :
      (s : Bytes) (e : E)
      → is_plain s ≡ true
      → w.in_tx e ≡ true
      → Yields w e (w.lent e) true (w.lent e) true (d.exec s e)
  pub queries :
      (s : Bytes) (e : E)
      → is_explain s ≡ true
      → w.in_tx e ≡ true
      → Looks w e (w.lent e) true (d.query s e).1
  pub rolls_back : (e : E) → Looks w e (w.lent e) false (d.rollback e)
  pub releases : (e : E) (n : ℕ) → w.lent e ≡ suc n → Looks w e n (w.in_tx e) (d.release e)

-- A function that, inside the transaction, sends only such queries, one after the other, and computes
-- with their answers.
pub data IsInside {A E : Type 0} (d : Driver E) : Action A E → Type 0 where
  answers : (f : E → Outcome A) → IsInside d (λ e. (f e, e))
  asks :
      (s : Bytes)
      → is_explain s ≡ true
      → (k : E → Outcome Bytes → Action A E) → ((e : E) (o : Outcome Bytes) → IsInside d (k e o))
      → IsInside d (λ e. k e (d.query s e).0 (d.query s e).1)
