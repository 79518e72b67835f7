-- ===== src/Worker.antt =====
-- The worker's EscrowProcessor, apps/worker/src/processors/escrow.processor.ts: a child for the
-- chain's answers, one for each group of jobs, and `process`, which picks the job's handler.
pub mod Chain
pub mod Notify
pub mod Fund
pub mod Settle
pub mod Ledger
pub mod Sync
pub mod Process
