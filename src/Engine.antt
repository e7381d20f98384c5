-- ===== src/Engine.antt =====
-- internal/engine/engine.go: what an engine answers about tables, plans, timings and results.
pub mod Open
pub mod Plans
pub mod MysqlPlans
pub mod IndexColumns
pub mod Timing
pub mod Trust
pub mod Fair
pub mod Experiment
use queryforge.Prelude.{
  ℕ, ◌≡◌, ◌++◌, ◌∷◌, [], Bool, true, false, ◌&&◌, ◌||◌, Option, none, some, List, find, Bytes,
  codes, bytes_eq, equal_fold, ◌==◌, if◌then◌else◌,
}

-- A call on an engine gives a value, or an error with its text.
pub data Outcome (A : Type 0) : Type 0 where
  done : A → Outcome A
  fault : Bytes → Outcome A

pub record Column (F : Type 0) : Type 0 where
  pub name : Bytes
  pub kind : Bytes
  pub nullable : Bool
  pub null_fraction : F
  pub distinct_values : F

pub record Index : Type 0 where
  pub name : Bytes
  pub definition : Bytes
  pub columns : List Bytes
  pub is_unique : Bool
  pub is_primary : Bool
  pub size_bytes : ℕ
  pub scans : ℕ

pub record Table (F : Type 0) : Type 0 where
  pub schema : Bytes
  pub name : Bytes
  pub columns : List (Column F)
  pub indexes : List Index
  pub row_estimate : ℕ
  pub total_bytes : ℕ
  pub seq_scans : ℕ
  pub idx_scans : ℕ

pub record Schema (F : Type 0) : Type 0 where
  pub tables : List (Table F)

abbrev pub is_named : {F : Type 0} → Bytes → Table F → Bool
is_named name t = equal_fold t.name name || equal_fold (t.schema ++ codes "." ++ t.name) name

-- (*Schema).Table
unfoldable pub table : {F : Type 0} → Schema F → Bytes → Option (Table F)
table s name = find (is_named name) s.tables

pub record Plan (F : Type 0) : Type 0 where
  pub raw : Bytes
  pub summary : Bytes
  pub total_cost : F
  pub startup_cost : F
  pub estimated_rows : F
  pub node_types : List Bytes
  pub seq_scan_tables : List Bytes

pub record Measurement (F : Type 0) : Type 0 where
  pub runs : ℕ
  pub median_ms : F
  pub min_ms : F
  pub max_ms : F
  pub spread_ms : F
  pub planning_ms : F
  pub actual_rows : F
  pub shared_hit : ℕ
  pub shared_read : ℕ
  pub temp_written : ℕ
  pub plan : Option (Plan F)
  pub timed_out : Bool

pub record ResultHash : Type 0 where
  pub hash : Bytes
  pub row_count : ℕ
  pub ordered : Bool

abbrev pub bool_eq : Bool → Bool → Bool
bool_eq true b = b
bool_eq false true = false
bool_eq false false = true

-- (*ResultHash).Equal; `none` is a nil pointer.
unfoldable pub equal : Option ResultHash → Option ResultHash → Bool
equal none b = false
equal (some a) none = false
equal (some a) (some b) =
    bool_eq a.ordered b.ordered && a.row_count == b.row_count && bytes_eq a.hash b.hash

pub record Timings : Type 0 where
  pub statement_timeout : ℕ
  pub runs : ℕ
  pub warmup_runs : ℕ
