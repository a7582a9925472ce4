-- ===== src/Guardrails.antt =====
-- app/guardrails: what is scanned, what a finding leads to, and what the audit trail records.
pub mod Policy
pub mod Audit
pub mod Pipelines
pub mod Context
pub mod Tool
