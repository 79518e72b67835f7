-- ===== src/Contract.antt =====
-- NexusEscrow, the contract of contracts/nexus-escrow/src on Stellar: the escrow records that it
-- stores, and the tokens that it holds for them.
pub mod Bytes
pub mod Types
pub mod Host
pub mod Storage
pub mod Admin
pub mod Progress
pub mod Settlement
pub mod Calls
pub mod Lifecycle
pub mod Solvency
pub mod History
pub mod Payout
pub mod Expiry
pub mod Fees
pub mod Pause
pub mod Memory
pub mod Interface
