-- ===== src/Database.antt =====
-- The PostgreSQL tables of apps/api/app, with the constraints that the models declare, and the
-- transactions over them. A table keeps its rows in the order of their `id` and the next `id` of its
-- identity column: of an `id` only the order and the uniqueness matter.
pub mod Rows
pub mod Transaction
pub mod Call
