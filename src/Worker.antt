-- ===== src/Worker.antt =====
-- The private worker of apps/api/app/worker.py: it takes a task's body, claims the suggestion, asks the
-- provider, stores the result and answers whether the task is done.
pub mod Body
pub mod Events
pub mod Trace
pub mod Delivery
pub mod Maintenance
pub mod Export
