-- ===== src/Reflection.antt =====
-- app/rag_services/reflection: the bounded self-reflection on a generated answer.
pub mod Types
pub mod Policy
pub mod Query
pub mod Evidence
pub mod Engine
pub mod Serving
