-- ===== src/Web.antt =====
-- The web client, apps/web/src: the stored session, the HTTP client with its token refresh, the calls
-- of the API, and the texts it shows.
pub mod Session
pub mod Client
pub mod Api
pub mod Queries
pub mod Text
