-- ===== src/Engine/Experiment.antt =====
-- Transactions of internal/engine/postgres.go: readOnly and WithHypotheticalIndex. The connection
-- pool and the driver are an argument; the laws are those of PostgreSQL's transactions.
pub mod Laws
pub mod Rollback
use queryforge.Prelude.{ℕ, Bool, ◌++◌, Bytes, codes}
use queryforge.Engine.{Outcome, done, fault}

-- The calls of pgx on a pool, a connection and a transaction.
pub record Driver (E : Type 0) : Type 0 where
  pub acquire : E → Outcome (Unit {0}) × E
  pub begin : E → Outcome (Unit {0}) × E
  pub begin_read_only : E → Outcome (Unit {0}) × E
  pub exec : Bytes → E → Outcome (Unit {0}) × E
  -- QueryRow and Scan of one text column
  pub query : Bytes → E → Outcome Bytes × E
  -- the error of a rollback is dropped
  pub rollback : E → E
  pub release : E → E

-- A function that runs inside the transaction.
abbrev pub Action : Type 0 → Type 0 → Type 0
Action A E = E → Outcome A × E

abbrev pub create_prefix : Bytes
create_prefix = codes "create hypothetical index: "

module _ {A E : Type 0} (d : Driver E) where
  -- The deferred calls, last in first out.
  abbrev pub deferred_release : Outcome A × E → Outcome A × E
  deferred_release r = (r.0, d.release r.1)

  abbrev pub deferred_rollback : Outcome A × E → Outcome A × E
  deferred_rollback r = (r.0, d.rollback r.1)

  abbrev pub and_then : Outcome (Unit {0}) × E → Action A E → Outcome A × E
  and_then (done u, e) next = next e
  and_then (fault t, e) next = (fault t, e)

  -- The same with the error wrapped.
  abbrev pub and_then_wrapped : Bytes → Outcome (Unit {0}) × E → Action A E → Outcome A × E
  and_then_wrapped prefix (done u, e) next = next e
  and_then_wrapped prefix (fault t, e) next = (fault (prefix ++ t), e)

  -- (*Postgres).WithHypotheticalIndex; `set_timeout` is the SET LOCAL statement.
  unfoldable pub with_hypothetical_index : Bytes → Bytes → Action A E → Action A E
  with_hypothetical_index set_timeout ddl fn e = and_then (d.acquire e) λ e1. deferred_release (
      and_then (d.begin e1) λ e2.
        deferred_rollback (
          and_then (d.exec set_timeout e2) λ e3. and_then_wrapped create_prefix (d.exec ddl e3) fn))

  -- (*Postgres).readOnly
  unfoldable pub read_only : Bytes → Action A E → Action A E
  read_only set_timeout fn e = and_then (d.acquire e) λ e1. deferred_release (
      and_then (d.begin_read_only e1) λ e2. deferred_rollback (and_then (d.exec set_timeout e2) fn))
