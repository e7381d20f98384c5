-- ===== src/Engine/Plans/Document.antt =====
-- internal/engine/postgres.go: parsePlan and planExecutionStats, over the document that EXPLAIN answers.
use mathlib.Core.List.{reverse}
use queryforge.Prelude.{ℕ, ◌++◌, Option, some, List, [], ◌∷◌, Bytes, codes, ◌==◌, if◌then◌else◌}
use queryforge.Prelude.Float.{FloatOps}
use queryforge.Engine.{Plan, Outcome, done, fault}
use queryforge.Engine.Plans.{Json, object, Fields, get, float_field, Walked, walk_node}

module _ {F : Type 0} (fl : FloatOps F) (fixed : ℕ → F → Bytes) (shown : Json F → Bytes) where
  abbrev drop_newlines : Bytes → Bytes
  drop_newlines [] = []
  drop_newlines (c ∷ s) = let rest = drop_newlines s in if c == b'\n' then rest else c ∷ s

  -- strings.TrimRight(s, "\n")
  abbrev pub trim_newlines : Bytes → Bytes
  trim_newlines s = reverse (drop_newlines (reverse s))

  abbrev pub nothing_walked : Walked fl fixed shown
  nothing_walked = record { summary = []; node_types = []; seq_scan_tables = [] }

  abbrev pub plan_of : Bytes → Fields F → Plan F
  plan_of raw root =
      let w = walk_node fl fixed shown 0 root nothing_walked in
      record {
        raw = raw;
        summary = trim_newlines w.summary;
        total_cost = float_field fl fixed shown (codes "Total Cost") root;
        startup_cost = float_field fl fixed shown (codes "Startup Cost") root;
        estimated_rows = float_field fl fixed shown (codes "Plan Rows") root;
        node_types = w.node_types;
        seq_scan_tables = w.seq_scan_tables;
      }

  abbrev pub plan_node : Bytes → Option (Json F) → Outcome (Plan F)
  plan_node raw (some (object root)) = done (plan_of raw root)
  plan_node raw o = fault (codes "plan document has no Plan node")

  abbrev pub plan_document : Bytes → Outcome (List (Fields F)) → Outcome (Plan F)
  plan_document raw (fault e) = fault (codes "decode plan: " ++ e)
  plan_document raw (done []) = fault (codes "empty plan")
  plan_document raw (done (doc ∷ docs)) = plan_node raw (get (codes "Plan") doc)

  module _ (unmarshal : Bytes → Outcome (List (Fields F))) where
    -- parsePlan
    unfoldable pub parse_plan : Bytes → Outcome (Plan F)
    unfolding get float_field walk_node
    parse_plan raw = plan_document raw (unmarshal raw)

    -- execStats, with the times; a block count is a float that is cut to an integer by `whole`.
    pub record ExecStats : Type 0 where
      pub exec_ms : F
      pub planning_ms : F
      pub rows : F
      pub shared_hit : ℕ
      pub shared_read : ℕ
      pub temp_written : ℕ

    abbrev times_only : F → F → ExecStats
    times_only exec planning = record {
      exec_ms = exec;
      planning_ms = planning;
      rows = fl.lit 0;
      shared_hit = 0;
      shared_read = 0;
      temp_written = 0;
    }

    abbrev root_stats : (F → ℕ) → F → F → Option (Json F) → ExecStats
    root_stats whole exec planning (some (object plan)) = record {
      exec_ms = exec;
      planning_ms = planning;
      rows = float_field fl fixed shown (codes "Actual Rows") plan;
      shared_hit = whole (float_field fl fixed shown (codes "Shared Hit Blocks") plan);
      shared_read = whole (float_field fl fixed shown (codes "Shared Read Blocks") plan);
      temp_written = whole (float_field fl fixed shown (codes "Temp Written Blocks") plan);
    }
    root_stats whole exec planning o = times_only exec planning

    abbrev document_stats : (F → ℕ) → Outcome (List (Fields F)) → ExecStats
    document_stats whole (done (doc ∷ docs)) =
        root_stats whole (float_field fl fixed shown (codes "Execution Time") doc)
          (float_field fl fixed shown (codes "Planning Time") doc) (get (codes "Plan") doc)
    document_stats whole o = times_only (fl.lit 0) (fl.lit 0)

    -- planExecutionStats
    unfoldable pub plan_execution_stats : (F → ℕ) → Bytes → ExecStats
    unfolding get float_field
    plan_execution_stats whole raw = document_stats whole (unmarshal raw)
