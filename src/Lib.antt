-- ===== src/Lib.antt =====
-- Mujeeb 24 is a backend in Go on which several merchants answer their customers, with the help of
-- language models that read the merchant's catalog. This library models parts of its core logic, from
-- internal/application and the outbox below it, and proves what they promise.
--
-- The parts and their files:
--
-- Catalog: services/catalog_batch_controller.go, with catalog_batch_coverage.go and
--   catalog_ai_projection.go beside it, all in internal/application/services. The controller reads the
--   catalog page by page, splits each page into batches that fit a token budget, lets an evaluator
--   select candidates from each batch, checks the evidence that it names, and asks a final model for a
--   decision on the candidates, which it reduces in rounds when they are too many.
--   Catalog.Projection holds the structures (CatalogAIProjection and its parts). A JSON object is the
--     list of its fields.
--   Catalog.Coverage is validateCatalogBatchCoverage, with every error.
--   Catalog.Session holds what the controller exchanges with its ports (the records of
--     internal/application/ports) and how a run is modelled: a run is a function of the calls made so
--     far, and each port is a function of them, so that a catalog may change while it is read.
--   Catalog.Split is splitIntoBatchesMode, with buildBatch, countBatch and the coverage check. Its
--     recursion halves the items; the fuel is their number and one.
--   Catalog.Candidates is validateBatchCandidates, normalizeBatchCandidates and
--     appendCandidateProjection.
--   Catalog.Batches is the life of one batch: createBatchRecord, markBatchRunning, EvaluateBatch,
--     recordBatchUsage, the check of the evidence, markBatchCompleted or markBatchFailed; and
--     coverageComplete and countCompleted.
--   Catalog.Final is runFinalEvaluation with reduceCandidateRound. Its loop passes the guard on the
--     rounds three times, so its fuel is four rounds.
--   Catalog.Pages is runPagedCatalogEvaluation and RunCatalogEvaluation. The loop over the pages is on
--     fuel that the caller gives; it is enough when the cursors of the catalog advance.
-- MerchantAssist.Scan: scanAllPages of merchantassist/discovery_pagination.go in
--   internal/application, the complete listing that the merchant assistant reports on. Its fuel is the
--   bound on the records and two.
-- Authorization: authorization/permissions.go, authorization/conversations.go and
--   services/team_roles.go in internal/application: which permissions exist and may be granted, and who
--   may read, answer and claim a conversation.
-- CostProtection: services/ai_cost_protection_service.go in internal/application, the decision
--   whether an automatic reply may start.
-- Tokens: services/catalog_batch_budget.go, services/native_provider_spend.go and the spend that
--   services/native_merchant_usage.go stores, in internal/application: the budget of a request and the
--   cost of a usage. The sums are unbounded, as in math/big, and the result is checked against int.
-- WorkerPool: services/autoreply_worker_pool.go in internal/application, as a step relation: the calls of
--   Submit, the workers and Stop interleave freely under the rules of Go's lock and channel.
-- Outbox: the writes of adapters/secondary/persistence/postgres/outbox_store.go in internal: each is a
--   conditional update of a row of a table, with the clocks of the database and of the program as
--   arguments. Outbox.Processor is Process of services/outbox_processor.go in internal/application, which
--   claims an entry, sends it and ends it with these writes; its dependencies are taken as configured.
-- AiRuns: services/ai_run_lifecycle.go in internal/application, the transitions of an agent's run, and
--   below it the statements on the table ai_runs of adapters/secondary/persistence/postgres/
--   ai_run_trace_repository.go, with the two unique indexes that migrations/000060 leaves. A transition
--   reads the run and writes it; the calls on the table follow one another.
-- Validation: what becomes of a model's proposal. Validation.Evidence is the evidence set of
--   ports/catalog_ai_read.go and EvidenceFromProjection of services/catalog_ai_runtime.go;
--   Validation.Quantity is ports/sales_quantity.go, Validation.Proposal is
--   services/sales_proposal_validation.go with ports/sales_message_evidence.go, all in
--   internal/application; Validation.Policy and Validation.Validators are policy_evaluator.go and
--   catalog_validators.go of adapters/secondary/persistence/postgres, the tables as lists of rows;
--   Validation.Stage and Validation.Pipeline are services/ai_validation_pipeline.go, which calls them in
--   their order.
-- Conversations: the commands on a conversation. Conversations is conversation_runtime_repository.go and
--   conversation_inbox_repository.go of adapters/secondary/persistence/postgres, the table with the checks
--   of migrations/000008; Conversations.Labels is conversation_label_repository.go beside them;
--   Conversations.Commands and Conversations.Handlers are services/conversation_services.go and
--   services/conversation_inbox.go in internal/application, which use the rules of Authorization. A command
--   is a transaction that is rolled back when it fails; commands on the locked row follow one another.
--   uuid.Validate, the ::uuid cast of PostgreSQL, of a text to the UUID as it is printed, and
--   strings.ToLower are parameters (TextFunctions).
-- Common: results, maps, membership, integers, texts and tests that the parts share.
--
-- How the code is read: a Go map is a list of entries of which the first of a key counts, and the order
-- in which Go iterates over one is a parameter where it can be seen; a pointer that may be nil is an
-- option; an error is a value, without the text that its callers put in front; int is unbounded, since
-- only counts, limits and estimates are compared; strings.TrimSpace is written out, and strings.ToLower
-- for the characters that a comparison with an ASCII text can tell apart; where any text is put into
-- small letters, which is so of the labels of conversations, it is a parameter. Each module's Tests run its
-- definitions on concrete inputs and apply the theorems to them.
--
-- Not modelled: the ports' own code (the database, the models, their token estimators, fmt's texts),
-- which are parameters; what recordBatchUsage computes besides the spend before it stores a usage; the dump of payloads for
-- debugging; the JSON of the prompts; ProjectionFromBundles, whose result is what the page port returns;
-- HTTP handlers, bootstrap, the other SQL, and the other services of internal/application.
pub mod Common
pub mod Catalog
pub mod MerchantAssist
pub mod Authorization
pub mod CostProtection
pub mod Tokens
pub mod WorkerPool
pub mod Outbox
pub mod AiRuns
pub mod Validation
pub mod Conversations
