-- ===== src/Trace.antt =====
-- agentrust_telemetry/trace_adapter.py: from a sealed evidence snapshot to a TRACE record, one
-- module for each step of `finalize_trace`.
pub mod Events
pub mod Chain
pub mod Policy
pub mod DataClass
pub mod Approvals
pub mod Actions
pub mod Appraisal
pub mod Finalize
