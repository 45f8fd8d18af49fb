-- ===== src/Tests.antt =====
-- The theorems applied at concrete inputs.
mod FlagRuns
mod KeyedRuns
mod TeamRuns
mod PaymentsRuns
mod QueueRuns
mod SessionRuns
mod ServiceRuns
mod AccessRuns
mod KeyRuns
mod OrgRuns
mod MeterRuns
