-- ===== src/System.antt =====
-- The services and the worker together: every call that either of them runs, one after another on
-- the same database and queues, and what no such history loses.
pub mod Kept
pub mod Rules
pub mod Safe
pub mod History
