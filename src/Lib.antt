-- ===== src/Lib.antt =====
-- Baxi turns alerts on business data into decision cases, lets an LLM propose actions, has people
-- review the proposals, executes the approved ones, and dispatches the resulting events to outside
-- channels. This library models the Go back end along that path, from the alert to the event that is
-- sent, with the governance, the pipeline and the HTTP interface that surround it.
--
-- Parts, and the files that model them:
--   Base        shared tests, lists, results, integers (the native ℕ; ℤ over it)
--   Json        the values of `interface{}` and the maps with text keys
--   Outbox      internal/outbox/repository.go: the table ops.outbox_event as a list of rows, one
--               function per method (`CreateEvent` is `create_event`, and so on). Outbox.Rows has the
--               rows, Laws and Keys the updates, Pending the query of the due events
--   Worker      internal/worker/dispatch_worker.go: the `handle…` methods and the audit CSV; Loop has
--               `dispatchEvent`, `processBatch`, `Run`; Backoff the delay in Go's int64 arithmetic
--   Recommendation  internal/recommendation/generator.go, with the texts in Templates
--   Alert       internal/alert/engine.go: the dimensional rules and the cap on their alerts; Global
--               has the global rules of rule.go and engine.go
--   Llm         internal/llm: Model (the data of provider.go), Validator (schema_validator.go; Schema sets it
--               beside pi-agent/schemas/decision.schema.json),
--               RuleProvider (rule_provider.go)
--   Decision    Repository (internal/repository/decision/repository.go), Cases, Engine
--               and Context (internal/decision/case_service.go, engine.go, context_builder.go),
--               with the versions Context.V2, whose policy is Context.Policy, and Context.V3
--   Action      internal/action: Model (proposals, results, executors), Registry (registry.go, with
--               the payloads in Registry.Payload), Generate (proposal_service.go), Apply
--               (apply_service.go, outbox_integration.go, with the statements in Apply.Steps)
--   Service     internal/service: Decision has `Decide` of decision_service.go
--   Store       the tables that decision, review and execution share, with their rows
--   Review      internal/review/service.go and domain.go; Sandbox has sandbox.go
--   Pipeline    internal/pipeline: runner.go and the records of audit.go
--   Ontology    internal/ontology: Quoting and Links (link_plan.go, queryref_validator.go, with the
--               choice of the query in cmd/baxi-mcp/main.go)
--   Http        internal/api/middleware (auth.go, identity.go, rbac.go) in Auth, and
--               internal/httputil/pagination.go in Paging
--   Governance  internal/governance: Access (access_policy.go), Redaction (redaction.go), Marking
--               (classification.go, marking_adapter.go), Checkpoint (checkpoint.go), Lineage
--               (lineage.go), Versions (config_version.go), with the queries of
--               internal/repository/governance/repository.go that they send
--
-- How the parts interact: a case is created from an alert; the decision engine asks a provider, checks
-- the answer with the validator, lets the rules answer where that fails, and stores the decision; the
-- service then has proposals generated for the actions that the registry accepts. A review moves a
-- proposal from `proposed` to `approved` or `rejected`; an execution reads the approved proposal,
-- asks the registry, calls the executor of the channel and writes an event to the outbox, all over
-- the tables of Store; the worker fetches events from the same table type and hands them to executors. A go routine that runs beside another is an order of
-- whole operations, or, for an execution, of its load and its transaction.
--
-- Conventions:
--   - A SQL statement is the function on the table that its text says. Each statement may be refused:
--     a `Driver` gives for each one the error of the database, or none. A transaction that is not
--     committed leaves the tables as they were; what an executor was called with stays in a log.
--   - Times are nanoseconds in ℤ, and NOW() and time.Now() are one instant of the environment, except
--     in Governance.Versions, where the two are compared and have times of their own. Event ids and
--     formatted times are given by the environment.
--   - A worker that runs alone writes the outbox; of other sessions the model has the rows that they
--     hold locked while it fetches.
--   - The arithmetic of float64, decision providers, the providers of objects and markings, the work of
--     a pipeline step, executors, lineage verifiers, token verification, the regular expressions, the
--     file system and the encoding and decoding of JSON and YAML texts are parameters.
--   - The errors keep their texts or their context; log lines are left out.
--   - Maps are association lists; where Go ranges over a map in no fixed order, the model takes the
--     order of the list.
--   - No recursion needs fuel: loops run over lists, and `Run` of the worker is the list of its ticks.
--     The engine asks its provider at most twice, and version 3 of the context builder follows links
--     for two levels, which it counts down: both bounds are the code's own.
--
-- Not modelled: evaluation, the recipe context builder, the LLM client and its prompts, the ontology registries and their loaders, the handlers of the HTTP and MCP servers,
-- the adapters, ingestion, configuration, the other repositories and services, and the parts of the
-- packages above that their files do not name; the front end, the scripts and the database migrations.
pub mod Action
pub mod Alert
pub mod Base
pub mod Decision
pub mod Governance
pub mod Http
pub mod Json
pub mod Llm
pub mod Ontology
pub mod Outbox
pub mod Pipeline
pub mod Recommendation
pub mod Review
pub mod Service
pub mod Store
pub mod Worker
