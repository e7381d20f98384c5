-- ===== src/Rules.antt =====
-- internal/rules/rules.go: what the deterministic half of the optimizer answers.
pub mod Missing
pub mod Analysis
pub mod Names
pub mod Tree
use queryforge.Prelude.{ℕ, List, Bytes}

pub data Severity : Type 0 where
  high medium low : Severity

-- `Detail`, which is only shown, is left out; an empty text is an absent one.
pub record Finding : Type 0 where
  pub code : Bytes
  pub title : Bytes
  pub severity : Severity
  pub table : Bytes
  pub columns : List Bytes
  pub evidence : Bytes
  pub rewrite : Bytes
  pub suggested_index : Bytes

-- severityRank
unfoldable pub severity_rank : Severity → ℕ
severity_rank high = 0
severity_rank medium = 1
severity_rank low = 2
