-- ===== src/Adapters.antt =====
-- agentrust_telemetry/adapters: how decisions, approvals and audit rows of other systems become
-- events. A source is a dictionary or an object, whose fields are read by name.
pub mod Source
pub mod AgtApproval
pub mod AgtAudit
pub mod Agt
pub mod AgtData
pub mod Cedar
