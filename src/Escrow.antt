-- ===== src/Escrow.antt =====
-- EscrowService of apps/api/src/escrow/escrow.service.ts. `Create` has createEscrow, `Requests` the
-- operations that check an escrow and queue a job, `Queries` the reads and transferAdmin.
pub mod Create
pub mod Requests
pub mod Queries
