-- ===== src/Sql.antt =====
-- internal/sqlparse/sqlparse.go: what the optimizer knows of a parsed statement.
pub mod Shape
pub mod Tree
pub mod Parse
pub mod Tables
pub mod Outputs
pub mod Mysql
use queryforge.Prelude.{
  ℕ, ◌++◌, Bool, ◌&&◌, not, List, Option, Bytes, codes, bytes_eq, is_empty, if◌then◌else◌,
}

pub data Dialect : Type 0 where
  postgres mysql : Dialect

pub record TableRef : Type 0 where
  pub schema : Bytes
  pub name : Bytes
  pub alias : Bytes

-- (TableRef).Qualified
unfoldable pub qualified : TableRef → Bytes
qualified t =
    if not (is_empty t.schema) && not (bytes_eq t.schema (codes "public"))
    then t.schema ++ codes "." ++ t.name
    else t.name

-- Statement, without the parse tree.
pub record Statement : Type 0 where
  pub sql : Bytes
  pub dialect : Dialect
  pub normalized : Bytes
  pub fingerprint : Bytes
  pub tables : List TableRef
  pub cte_names : List Bytes
  pub output_cols : List Bytes
  pub has_limit : Bool
  pub has_order_by : Bool
  pub select_star : Bool

-- The errors of parsing that callers tell apart, with their text: ErrNotReadOnly and all others.
pub data ParseError : Type 0 where
  not_read_only unparseable : Bytes → ParseError

pub data Parsed (A : Type 0) : Type 0 where
  parsed : A → Parsed A
  refused : ParseError → Parsed A
