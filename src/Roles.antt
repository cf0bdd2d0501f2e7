-- ===== src/Roles.antt =====
-- Roles and what they may do: core/security.py, core/permissions.py, web/core/context.py,
-- web/security/rbac.py and the role policy of the repository.
pub mod Levels
pub mod Bounds
pub mod Duties
pub mod Permissions
pub mod Context
pub mod Policy
pub mod Saving
pub mod Replacing
pub mod Endpoints
pub mod Grants
pub mod Divergence
mod Tests
