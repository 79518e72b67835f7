-- ===== src/Model.antt =====
-- The data of the program: the enums of packages/shared/src/enums/index.ts, the rows of
-- packages/database/prisma/schema.prisma, and the jobs that the API hands to the worker.
pub mod Enums
pub mod Decimal
pub mod Rows
pub mod Jobs
