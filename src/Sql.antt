-- ===== src/Sql.antt =====
-- app/sql and app/repositories/sql_proposal_repository.py: generated SQL runs only after its
-- proposal was approved.
pub mod Types
pub mod Proposals
pub mod Masking
pub mod Service
