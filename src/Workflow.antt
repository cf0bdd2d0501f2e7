-- ===== src/Workflow.antt =====
-- Change requests: web/routers/pending_approvals, domains/workflow/requests.py and
-- domains/reporting/vendors.py.
pub mod Payload
pub mod Requests
pub mod Creation
pub mod Decisions
pub mod Rows
pub mod Guards
pub mod Outcomes
pub mod Required
pub mod Scopes
mod Tests
