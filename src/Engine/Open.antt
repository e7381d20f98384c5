-- ===== src/Engine/Open.antt =====
-- internal/engine/open.go: which engine a data source name is for.
use queryforge.Prelude.{
  ◌&&◌, ◌||◌, Option, none, some, Bytes, codes, bytes_eq, contains, has_prefix, is_empty, to_lower,
  trim_prefix, trim_space, if◌then◌else◌,
}

-- DialectForDSN, with `none` for its error.
unfoldable pub dialect_for_dsn : Bytes → Option Bytes
unfolding trim_space has_prefix contains
dialect_for_dsn dsn =
    let s = trim_space dsn in
    if has_prefix s (codes "postgres://") || has_prefix s (codes "postgresql://")
    then some (codes "postgres")
    else if has_prefix s (codes "mysql://")
    then some (codes "mysql")
    else if contains s (codes "@tcp(") || contains s (codes "@unix(")
    then some (codes "mysql")
    else if contains s (codes "host=") && contains s (codes "dbname=")
    then some (codes "postgres")
    else none

-- normaliseMySQLDSN
unfoldable pub normalise_mysql_dsn : Bytes → Bytes
unfolding trim_space trim_prefix
normalise_mysql_dsn dsn = trim_prefix (trim_space dsn) (codes "mysql://")

-- The engine that Open makes, with the name it connects to, or its refusal.
pub data Opened : Type 0 where
  open_postgres open_mysql : Bytes → Opened
  unsupported : Bytes → Opened
  not_inferred : Opened

unfoldable pub by_dialect : Bytes → Bytes → Opened
unfolding to_lower bytes_eq normalise_mysql_dsn
by_dialect dsn dialect =
    let d = to_lower dialect in
    if bytes_eq d (codes "postgres") || bytes_eq d (codes "postgresql")
    then open_postgres dsn
    else if bytes_eq d (codes "mysql")
    then open_mysql (normalise_mysql_dsn dsn)
    else unsupported dialect

abbrev inferred : Bytes → Option Bytes → Opened
inferred dsn none = not_inferred
inferred dsn (some d) = by_dialect dsn d

-- Open, without the connection.
unfoldable pub open_target : Bytes → Bytes → Opened
unfolding by_dialect dialect_for_dsn
open_target dsn dialect =
    if is_empty dialect then inferred dsn (dialect_for_dsn dsn) else by_dialect dsn dialect
