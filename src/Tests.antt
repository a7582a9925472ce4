-- ===== src/Tests.antt =====
-- The theorems at concrete inputs.
mod World
mod Sql
mod Crag
mod Reflection
mod Settings
mod Guardrails
mod RateLimiter
mod Orchestrator
mod Cache
mod Rag
mod Metrics
mod Retrieval
