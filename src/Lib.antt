-- ===== src/Lib.antt =====
-- queryforge: a service that optimizes SQL queries by experiment. A query is submitted to the API,
-- queued as a job, and run by a worker, which takes candidate rewrites from rules and from a language
-- model, verifies each by executing it against the database, measures suggested indexes inside a
-- transaction that is rolled back, and stores a report.
--
-- The parts, by file:
--   Store       internal/store/store.go: the jobs table. Each method is an action on the list of the
--               rows; each SQL statement is a function on that list, and a `Link` says whether it ran,
--               did not reach the server, or ran with its answer lost.
--   Queue       internal/queue/queue.go: topics, the backoff ladder, publication.
--   Worker      cmd/worker/main.go: the handling of one message (handle, scheduleRetry, recordRuns) on
--               the jobs table, the history and the topics. `Fate` holds what the outside answers.
--               Worker/Service has the rounds of the worker's loops as events.
--   Engine      internal/engine/engine.go: tables, plans, measurements, checksums. Engine/Timing has the
--               measuring loops of internal/engine/postgres.go and internal/engine/mysql.go, and
--               Engine/Experiment the transactions of internal/engine/postgres.go, Engine/Plans what is
--               read from a plan's JSON, Engine/MysqlPlans the same of
--               internal/engine/mysql.go, and Engine/IndexColumns the columns of an index.
--   Sql         internal/sqlparse/sqlparse.go: statements, and in Sql/Shape the check of their shapes.
--               Sql/Tree has the parse tree and the walk of internal/sqlparse/walk.go, Sql/Parse the
--               function Parse, Sql/Mysql the ParseMySQL of internal/sqlparse/mysql.go, Sql/Tables
--               collectTables, and Sql/Outputs outputColumns and hasSelectStar.
--   Rules       internal/rules/rules.go: the findings. Rules/Names has resolveTables,
--               Rules/Missing checkMissingIndexes, and Rules/Analysis the rules on statement and plan, and
--               Analyze. Rules/Tree has what reads the parse tree: extractPredicates, the date rewrite
--               and the rules on sargability, wildcards and NOT IN, which Analyze takes as an argument.
--   Api         internal/api/server.go: the handlers, which answer a status and a body. Engine/Open has
--               internal/engine/open.go.
--   Llm         internal/llm/gemini.go: the retries of Generate, and ExtractJSON.
--   Optimizer   internal/optimizer/verify.go: the baseline and the verification gate.
--               Optimizer/Indexes has MeasureIndex and the loop over the suggested indexes, and
--               Optimizer/Pipeline the run of internal/optimizer/optimizer.go.
--   Config      internal/config/config.go: Load.
--   Prelude     the shared helpers, and the functions on bytes that stand for Go's strings.
--   Examples    concrete inputs.
--
-- The worker calls the run and writes its outcome to the store; the run calls the gate for each
-- candidate, and the gate calls the engine. An error is a value: `Outcome` for an engine's call,
-- `Result` for a statement on the store, `Ran` for a run. Only the calls that change state are in the
-- models: logging, contexts and cancellation are not.
--
-- Numbers: an int is a natural number, since no modelled counter falls below 0, but what is read
-- from the configuration is an integer, as is the limit of attempts; float64 is a parameter
-- `F` with the operations of `FloatOps`, and a theorem that needs an order of the times asks for
-- `IsOrdered`, which float64 satisfies without NaN. Strings are lists of bytes, and case folding is
-- that of ASCII, as Go's is on such bytes. The loops run over lists or count down the runs that are
-- left, so that none of them needs fuel but `decimal`, which has one round for each digit and more.
--
-- Parameters, being code that is not in the repository: the PostgreSQL driver (`Driver`, with the laws
-- of transactions in `IsTransactional`), the SQL parsers (`parse`), the database under test (`Engine`),
-- the language model (`propose`), JSON encoding (`marshal`), number formatting (`fixed`), UUIDs,
-- which are numbers here, and the environment (`getenv`). A run takes Introspect and Analyze as
-- parameters, so that what is proved of it holds for any schema and any findings.
--
-- Not modelled: the catalog queries and the checksums, which are SQL texts sent to the server, the
-- cache, a wrapper of a Redis client, the API's history and health checks, which change no state, and
-- the benchmark, which is a driver that prints. Nor is replaceFold of internal/rules/rules.go, whose
-- indices depend on the lower case of Unicode: the rules take it as an argument. Of a report, the
-- texts that are only shown are left out. A parse tree has the nodes that the program looks into; any
-- other node is one with the nodes below it.
pub mod Api
pub mod Config
pub mod Llm
pub mod Prelude
pub mod Store
pub mod Engine
pub mod Sql
pub mod Rules
pub mod Optimizer
pub mod Queue
pub mod Worker
pub mod Examples
