-- ===== src/Rag.antt =====
-- app/rag_services/rag_service.py and the stages it drives: what an answer is (app/schemas/chat.py),
-- reranking, query expansion and the service itself.
pub mod World
pub mod Metrics
pub mod Schemas
pub mod Rerank
pub mod Hyde
pub mod Service
pub mod Retrieval
