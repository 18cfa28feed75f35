-- ===== src/Analytics.antt =====
-- The analytics outbox of apps/api/app: its events (analytics_events.py).
pub mod Events
pub mod Export
