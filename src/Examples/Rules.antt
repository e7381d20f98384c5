-- ===== src/Examples/Rules.antt =====
-- The rules on a table with an index, and on a statement of each dialect.
use mathlib.Core.List.{Memᴰ}
use queryforge.Prelude.{
  ℕ, refl, ◌⊎◌, true, false, some, [], ◌∷◌, List, All, Bytes, codes, bytes_eq, to_lower, equal_fold,
}
use queryforge.Prelude.Int.{ℤ, pos}
use queryforge.Prelude.Float.{thousandths}
use queryforge.Engine.{Column, Table, Schema, table, Measurement}
use queryforge.Sql.{Statement, Dialect}
use queryforge.Rules.Missing.{Predicate, check_missing_indexes}
use queryforge.Rules.Missing.Warranted.{Warranted, check_missing_indexes-Warranted}
use queryforge.Rules.Analysis.{TreeRules}
use queryforge.Rules.Analysis.Findings.{Unsuggested}
use queryforge.Rules.Names.{owners, pick_owner, resolve_unqualified}
use queryforge.Rules.Names.Resolution.{Agrees, resolve_unqualified-Agrees}
use queryforge.Examples.Data.{original, statement_of, plan, timing}

-- fmt's %.nf, for thousandths that are not shown.
abbrev pub fixed : ℕ → ℤ → Bytes
fixed n x = []

abbrev column_named : Bytes → Column ℤ
column_named name = record {
  name = name;
  kind = codes "bigint";
  nullable = false;
  null_fraction = pos 0;
  distinct_values = pos 0;
}

-- A large table with an index on `id`.
abbrev orders : Table ℤ
orders = record {
  schema = codes "public";
  name = codes "orders";
  columns = [];
  indexes =
      record {
        name = codes "pk";
        definition = [];
        columns = codes "id" ∷ [];
        is_unique = true;
        is_primary = true;
        size_bytes = 8192;
        scans = 1;
      }
      ∷ [];
  row_estimate = 90000;
  total_bytes = 0;
  seq_scans = 0;
  idx_scans = 0;
}

abbrev pub schema : Schema ℤ
schema = record { tables = orders ∷ [] }

abbrev filter_on : Bytes → Predicate
filter_on column = record {
  table = codes "orders";
  qualifier_as_written = codes "o";
  column = column;
  operator = codes "=";
  wrapped_by = [];
  cast_to = [];
  literal_text = [];
  is_join = false;
  other_table = [];
  other_col = [];
}

abbrev filters : List Predicate
filters = filter_on (codes "user_id") ∷ filter_on (codes "id") ∷ filter_on (codes "USER_ID") ∷ []

abbrev fixed_rules : TreeRules ℤ
fixed_rules = record { predicates = λ st. filters; findings = λ st s ps. [] }

abbrev in_dialect : Dialect → Statement
in_dialect d = record (statement_of original) { dialect = d; has_limit = true }

abbrev scanned : Measurement ℤ
scanned = record (timing 100000 1000) {
  plan = some (record plan { seq_scan_tables = codes "orders" ∷ [] });
  temp_written = 9;
}

check_missing_indexes-Warranted_example :
    All
      (λ f. Unsuggested f ⊎ Warranted thousandths (fixed 0) schema filters f)
      (check_missing_indexes thousandths (fixed 0) schema filters)
check_missing_indexes-Warranted_example =
    check_missing_indexes-Warranted thousandths (fixed 0) schema filters

-- The same table with two columns, in a query without qualifiers.
abbrev with_columns : Schema ℤ
with_columns = record {
  tables =
      record orders { columns = column_named (codes "id") ∷ column_named (codes "user_id") ∷ [] }
      ∷ [];
}

abbrev from_orders : Statement
from_orders = record (statement_of original) {
  tables = record { schema = []; name = codes "orders"; alias = codes "o" } ∷ [];
}

resolve_unqualified-Agrees_example : Agrees (codes "orders") (codes "orders")
unfolding resolve_unqualified owners pick_owner table equal_fold to_lower bytes_eq
resolve_unqualified-Agrees_example =
    resolve_unqualified-Agrees with_columns from_orders (codes "USER_ID") _ _ _ refl
      (Memᴰ.head refl) refl (Memᴰ.tail (Memᴰ.head refl)) refl
