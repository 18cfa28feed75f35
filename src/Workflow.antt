-- ===== src/Workflow.antt =====
-- The guided todo workflow of apps/api/app: its rules (workflow_domain.py), its views
-- (workflow_presentation.py), its stored form (workflow_repository.py) and its service.
pub mod Domain
pub mod Record
pub mod Store
pub mod StepId
pub mod Fingerprint
pub mod RowSnapshot
pub mod Service
