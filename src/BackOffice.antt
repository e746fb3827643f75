-- ===== src/BackOffice.antt =====
-- backoffice/ and compliance/traceability.py: the independent paper-only compliance decision.
pub mod Portfolio
pub mod Traceability
pub mod Compliance
pub mod Reconciliation
