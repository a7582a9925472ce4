-- ===== src/Crag.antt =====
-- app/rag_services/crag: corrective retrieval. It grades the retrieved chunks, extracts evidence
-- from them, and looks at regulatory web sources only where the request and the policy allow it.
pub mod Types
pub mod Offline
pub mod Grader
pub mod Refiner
pub mod Corrective
pub mod FailSafe
pub mod Plan
