-- ===== src/Stellar.antt =====
-- StellarService of apps/worker/src/stellar/stellar.service.ts: the encryption of the users' keys,
-- `invoke` with its poll for the transaction, and the entry points, which fill the interface that
-- the worker takes.
pub mod Cipher
pub mod Sdk
pub mod Invoke
pub mod Service
pub mod Startup
