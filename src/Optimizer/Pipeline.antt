-- ===== src/Optimizer/Pipeline.antt =====
-- internal/optimizer/optimizer.go: the candidates of a run, their verification one after the other,
-- and the choice of the best. The schema, the rules and the model are
-- arguments.
pub mod Best
pub mod Once
pub mod Recommend
pub mod Backing
use queryforge.Prelude.{
  ℕ, suc, zero, ◌+◌, Bool, true, false, not, ◌&&◌, Option, none, some, List, [], ◌∷◌, ◌++◌, Bytes,
  codes, bytes_eq, member, is_empty, trim_space, leb, length, if◌then◌else◌,
}
use queryforge.Prelude.Float.{FloatOps}
use queryforge.Engine.{Outcome, done, fault, Measurement, Schema, Plan}
use queryforge.Sql.{Statement, Parsed, parsed, refused, ParseError, TableRef, qualified}
use queryforge.Rules.{Finding}
use queryforge.Optimizer.Indexes.{IndexExperiment, Lab, run_index_experiments}
use queryforge.Optimizer.{
  Verdict, accepted, rejected, error, Candidate, Result, Baseline, BaselineError, Established,
  established, failed, Engine, Verifier, normalize_sql, establish_baseline, verify,
}

abbrev pub is_accepted : Verdict → Bool
is_accepted accepted = true
is_accepted _ = false

-- The candidates that the rules' rewrites make, in the order of the findings.
unfoldable pub rule_candidates : List Finding → List Candidate
rule_candidates [] = []
rule_candidates (f ∷ fs) =
    let rest = rule_candidates fs in
    if is_empty f.rewrite
    then rest
    else (record { sql = f.rewrite; source = codes "rule:" ++ f.code; rationale = f.title }) ∷ rest

pub record Proposal : Type 0 where
  pub sql : Bytes
  pub rationale : Bytes

-- The loop of propose from `taken` candidates on: proposals with no text are passed over, and the
-- loop ends when the limit is reached.
unfoldable pub take_proposals : ℕ → ℕ → List Proposal → List Candidate
take_proposals limit taken [] = []
take_proposals limit taken (p ∷ ps) = elim (is_empty (trim_space p.sql)) [
  | true ↦ take_proposals limit taken ps
  | false ↦
      let c : Candidate = record {
        sql = trim_space p.sql;
        source = codes "llm";
        rationale = p.rationale;
      } in
      elim (leb limit (suc taken)) [
        | true ↦ c ∷ []
        | false ↦ c ∷ take_proposals limit (suc taken) ps
      ]
]

module _ {F E : Type 0} (fl : FloatOps F) (v : Verifier F E) (base : Baseline F) where
  -- The loop over the candidates; `seen` holds the normalized texts so far.
  unfoldable pub verify_all : List Bytes → List Candidate → E → List (Result F) × E
  verify_all seen [] e = ([], e)
  verify_all seen (c ∷ cs) e = elim (member (normalize_sql c.sql) seen) [
    | true ↦ verify_all seen cs e
    | false ↦
        let (r, e1) = verify fl v base c e in
        let (rs, e2) = verify_all (normalize_sql c.sql ∷ seen) cs e1 in (r ∷ rs, e2)
  ]

module _ {F : Type 0} (fl : FloatOps F) where
  -- One round of the loop that picks the best; `none` is a nil rep.Best.
  abbrev pub better : Option (Result F) → Result F → Option (Result F)
  better none r = if is_accepted r.verdict then some r else none
  better (some b) r =
      if is_accepted r.verdict
      then if fl.lt b.improvement_pct r.improvement_pct then some r else some b
      else some b

  unfoldable pub pick_best : Option (Result F) → List (Result F) → Option (Result F)
  pick_best best [] = best
  pick_best best (r ∷ rs) = pick_best (better best r) rs

pub record Options (F : Type 0) : Type 0 where
  pub max_candidates : ℕ
  pub min_improvement_pct : F
  pub runs : ℕ
  pub test_indexes : Bool
  pub max_index_tests : ℕ
  pub skip_llm : Bool

pub data RunError : Type 0 where
  does_not_parse : ParseError → RunError
  introspect : Bytes → RunError
  baseline : BaselineError → RunError

-- The report, with the experiments of type `X`; its baseline is the whole one. The dialect, the
-- limitations, the name and the tokens of the model, the duration and the summary are not kept.
pub record Report (F X : Type 0) : Type 0 where
  pub original_sql : Bytes
  pub fingerprint : Bytes
  pub schema : Schema F
  pub findings : List Finding
  pub baseline : Baseline F
  pub candidates : List (Result F)
  pub indexes : List X
  pub best : Option (Result F)
  pub llm_used : Bool

pub data Ran (A : Type 0) : Type 0 where
  report : A → Ran A
  aborted : RunError → Ran A

-- What a run calls: the engine and Introspect, the parser at the optimizer's dialect, the rules, the
-- model, and the laboratory of the index experiments. `llm_enabled` is (*Client).Enabled.
pub record Parts (F E : Type 0) : Type 0 where
  pub engine : Engine F E
  pub parse : Bytes → Parsed Statement
  pub introspect : List Bytes → E → Outcome (Schema F) × E
  pub analyze : Statement → Schema F → Measurement F → List Finding
  pub llm_enabled : Bool
  pub propose : Statement → Schema F → Baseline F → List Finding → E → Outcome (List Proposal) × E
  pub lab : Lab F E

-- The verifier that Run builds from the options.
abbrev pub verifier : {F E : Type 0} → Parts F E → Options F → Verifier F E
verifier p o = record {
  engine = p.engine;
  min_improvement_pct = o.min_improvement_pct;
  runs = o.runs;
  parse = p.parse;
}

-- The same verifier for its index experiments.
abbrev pub laboratory : {F E : Type 0} → Parts F E → Options F → Lab F E
laboratory p o = record p.lab { min_improvement_pct = o.min_improvement_pct; runs = o.runs }

abbrev pub table_names : List TableRef → List Bytes
table_names [] = []
table_names (t ∷ ts) = qualified t ∷ table_names ts

module _ {F E : Type 0} (fl : FloatOps F) (p : Parts F E) (o : Options F) where
  -- A failing proposer leaves the candidates of the rules.
  abbrev pub add_proposals :
      List Candidate → Outcome (List Proposal) × E → (List Candidate × Bool) × E
  add_proposals cs (fault t, e) = ((cs, false), e)
  add_proposals cs (done ps, e) = ((cs ++ take_proposals o.max_candidates 0 ps, true), e)

  abbrev pub gather :
      Statement → Schema F → Baseline F → List Finding → E → (List Candidate × Bool) × E
  gather st schema base fs e =
      if not o.skip_llm && p.llm_enabled
      then add_proposals (rule_candidates fs) (p.propose st schema base fs e)
      else ((rule_candidates fs, false), e)

  -- The experiments, where the options ask for them.
  abbrev pub index_experiments : Baseline F → List Finding → E → List (IndexExperiment F) × E
  index_experiments base fs e =
      if o.test_indexes
      then run_index_experiments fl (laboratory p o) base o.max_index_tests fs e
      else ([], e)

  unfoldable pub after_baseline :
      Statement → Schema F → Established F × E → Ran (Report F (IndexExperiment F)) × E
  unfolding rule_candidates take_proposals
  after_baseline st schema (failed why, e) = (aborted (baseline why), e)
  after_baseline st schema (established base, e) =
      let fs = p.analyze st schema base.measured in
      let ((cs, used), e1) = gather st schema base fs e in
      let (results, e2) = verify_all fl (verifier p o) base (normalize_sql st.sql ∷ []) cs e1 in
      let (xs, e3) : List (IndexExperiment F) × E = index_experiments base fs e2 in
      (
        report (record {
          original_sql = st.sql;
          fingerprint = st.fingerprint;
          schema = schema;
          findings = fs;
          baseline = base;
          candidates = results;
          indexes = xs;
          best = pick_best fl none results;
          llm_used = used;
        }),
        e3,
      )

  abbrev pub after_introspect :
      Statement → Outcome (Schema F) × E → Ran (Report F (IndexExperiment F)) × E
  after_introspect st (fault t, e) = (aborted (introspect t), e)
  after_introspect st (done schema, e) =
      after_baseline st schema (establish_baseline p.engine st o.runs e)

  abbrev pub after_parse : Parsed Statement → E → Ran (Report F (IndexExperiment F)) × E
  after_parse (refused why) e = (aborted (does_not_parse why), e)
  after_parse (parsed st) e = after_introspect st (p.introspect (table_names st.tables) e)

  -- (*Optimizer).Run
  unfoldable pub run : Bytes → E → Ran (Report F (IndexExperiment F)) × E
  unfolding after_baseline
  run sql e = after_parse (p.parse sql) e
