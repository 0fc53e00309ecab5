-- ===== src/Admin.antt =====
-- The administration: the table of users (frontend/components/admin-users.tsx), their diagnostics
-- (admin-user-diagnostics.tsx), the state of the services (admin-health-status.tsx), the incidents
-- (admin-incident-panel.tsx), and what the pages under frontend/components/workbench load.
pub mod Users
pub mod Health
pub mod Remote
pub mod Incidents
pub mod Directory
mod Tests
