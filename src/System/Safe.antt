-- ===== src/System/Safe.antt =====
-- That each handler of the services and of the worker loses nothing.
pub mod Jobs
pub mod Deliveries
pub mod Requests
