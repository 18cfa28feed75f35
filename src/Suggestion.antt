-- ===== src/Suggestion.antt =====
-- The suggestions of apps/api/app/suggestion_service.py: reserving a request for a provider,
-- claiming it in the worker, finishing it, letting it expire.
pub mod Types
pub mod Trace
pub mod Snapshot
pub mod Checks
pub mod Store
pub mod Reserve
pub mod Finish
pub mod Claim
pub mod FinishClaimed
pub mod Expire
pub mod History
