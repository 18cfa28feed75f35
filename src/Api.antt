-- ===== src/Api.antt =====
-- The public API of apps/api/app/main.py: what each handler does with the outcome of its transaction.
pub mod Errors
pub mod Payloads
pub mod Auth
pub mod Views
pub mod Todos
pub mod Workflows
pub mod SuggestionErrors
pub mod Suggestions
