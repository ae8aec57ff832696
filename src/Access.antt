-- ===== src/Access.antt =====
-- Who may do what: roles, role profiles, account grants, the policy engine and its middleware.
pub mod Roles
pub mod Schema
pub mod RoleProfiles
pub mod Accounts
pub mod Assignments
pub mod Policy
pub mod Middleware
pub mod Tests
