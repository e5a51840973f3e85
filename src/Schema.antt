-- ===== src/Schema.antt =====
-- The database schema, backend/prisma/schema.prisma: its enums, its models and the state that
-- holds one list of rows for each model.
mod Enums
mod Rows
pub use Enums.*
pub use Rows.*
