-- ===== src/Lib.antt =====
-- A model of the answer pipeline of an enterprise RAG service (app/): what happens to a question
-- between the retrieved chunks and the answer, and what has to happen before a generated SQL query
-- may run.
--
-- The parts and their files
--
-- - Rollout: app/rag_services/rollout.py. `sampled_in` decides by a hash which questions a
--   percentage takes in. The hash is a parameter.
-- - RuntimeConfig: app/rag_services/rag_runtime_config.py. The snapshot of settings that a request
--   reads (`RagRuntimeConfig`), its validation (`__post_init__` is `post_init`) and the store.
-- - Crag: app/rag_services/crag. Crag.Types has the data and the protocols of crag.py; Crag.Grader
--   is `StructuredLLMRetrievalGrader`, Crag.Refiner is `ExtractiveKnowledgeRefiner`,
--   Crag.Corrective is `ProductionCorrectiveRetriever.correct` in four steps, Crag.FailSafe is the
--   availability boundary, and Crag.Plan has the no-op, the static and the dynamic planner. The
--   grader and the refiner are put together as app/api/deps.py does in Crag.Corrective.WebGate.
-- - Reflection: app/rag_services/reflection. Reflection.Types has the data and the protocols,
--   Reflection.Policy is `ThresholdReflectionDecisionPolicy`, Reflection.Query is
--   `validate_reflection_query`, Reflection.Evidence is `_dedupe_evidence`, Reflection.Engine is
--   `StructuredSelfReflectionEngine.reflect`, a function for each section of the loop's body, and
--   Reflection.Serving has the availability boundary and the planners.
-- - Sql: app/sql and app/repositories/sql_proposal_repository.py. Sql.Types has the data and the
--   table, Sql.Proposals is `PostgresSQLProposalRepository`, each operation one transaction on the
--   table, Sql.Masking is `DefaultSQLResultPolicy`, and Sql.Service is `SQLService`.
-- - Guardrails: app/guardrails. Guardrails.Policy has the data of contracts.py and
--   `GuardrailPolicy`, Guardrails.Pipelines the input and the output pipeline, Guardrails.Context
--   the filter on the evidence, Guardrails.Tool the authorisation of SQL, and Guardrails.Audit the
--   rows of the audit trail. The scanners are parameters.
-- - RateLimiter: `InMemorySlidingWindowRateLimiter` of app/core/security/rate_limiter.py, on the
--   hits of one bucket. A call reads the clock before it takes the lock, so that a step is what it
--   does under the lock, with its reading as an argument; RateLimiter.Window runs a sequence of such
--   steps, in whatever order the calls took the lock.
-- - QueryCache: app/services/query_cache_service.py, the cache in tiers with its counters, over a
--   backend that is a parameter.
-- - Rag: app/rag_services/rag_service.py and the stages it drives. Rag.World has the calls that an
--   answer makes, Rag.Schemas the response of app/schemas/chat.py, Rag.Rerank the rerankers of
--   app/rag_services/reranker, Rag.Hyde the query expansion of app/rag_services/hyde and the pooling
--   of app/rag_services/fusion. Rag.Service is `RAGService`; its children are the parts of `answer`
--   in the order of the code: Planning (one snapshot of the settings, every plan, the cache key),
--   Caching (the exact and the semantic cache), Retrieving, Correcting (correction, context guard
--   and draft), Reflecting, Responding (output guard, response, what may not be cached) and
--   Answering, which puts them together. Answering.Production assembles the service as
--   `get_rag_service` of app/api/deps.py does. Rag.Retrieval has the strategies of
--   app/rag_services/retrieval_strategy.py. Rag.Metrics is app/services/rag_metrics_service.py, the
--   windows and counters, with the snapshots in Rag.Metrics.Stats; `run` of Rag.Metrics.Windows
--   makes any sequence of recordings.
-- - Orchestrator: app/query_orchestration/query_orchestrator.py, which guards a question and
--   routes it to the documents, to a SQL proposal or to both; the other services are
--   parameters. Orchestrator.Router is `StructuredIntentRouter.route`.
-- - Prelude, Errors and PyText are shared: lists and tests over the native numbers, exceptions as
--   values, and Python's text built-ins as a record of functions.
--
-- How the code is modelled
--
-- Code that calls collaborators is an `Action`: it takes the history of the calls made so far and
-- returns its result, a value or an exception, with the longer history. A collaborator (a language
-- model, a web search, the clock, the SQL policy and executor) is a parameter whose answer may
-- depend on the whole history, and which may raise. `try` and `except` are `try_except`. In the SQL
-- part the history also holds the table, which only the repository's operations change.
--
-- A double is modelled by its exact multiple of 2^-1074, so that comparisons are exact; sums of
-- doubles are parameters. In Rag.Metrics a quotient and a product round to the nearest double, ties
-- to even. Not a number, infinities and logging are left out, and so are durations, but for those
-- that the metrics service is handed. A time is a
-- number of microseconds, a UUID is a number, a cell of a SQL result is its text. The database
-- connection is taken to work.
--
-- The world of an answer has one history for each service that keeps its own: the embedding model,
-- the retrieval, the language model, the rerankers and the metrics share one; the cache, the
-- corrective retriever, the reflection engine and the audit trail have theirs. A collaborator
-- changes its own history only.
--
-- The loop of `reflect` runs on fuel, one pass more than `max_iterations`: a pass that continues
-- has made one more revision. The grader's two attempts and the attempts at generating SQL are
-- recursions on the number of attempts left.
--
-- Not modelled: the prompts and the reading of JSON by pydantic beyond its validators, the
-- scanners of the guardrails, the scoring of confidence and the checks of claims and citations by
-- regular expressions, which are parameters of the answering service, the backends of the
-- rerankers, the vector store, the repositories of other tables, and the HTTP layer.
pub mod Prelude
pub mod Errors
pub mod PyText
pub mod Rollout
pub mod RuntimeConfig
pub mod Crag
pub mod Reflection
pub mod Sql
pub mod Guardrails
pub mod RateLimiter
pub mod QueryCache
pub mod Rag
pub mod Orchestrator
pub mod Tests
