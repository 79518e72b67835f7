-- ===== src/Prisma.antt =====
-- The services' surroundings: the database behind the Prisma client, the two queues, and calls that
-- may throw. The client is not the program's code, so its tables are a parameter with named laws.
pub mod Client
pub mod World
pub mod Action
pub mod Memory
