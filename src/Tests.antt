-- ===== src/Tests.antt =====
-- The theorems at concrete inputs, on a world that the client in memory holds.
mod Fixtures
mod EscrowTests
mod WorkerTests
mod DisputeTests
mod UserTests
mod ChainTests
mod SystemTests
mod HttpTests
mod WebTests
mod FundTests
mod ContractTests
