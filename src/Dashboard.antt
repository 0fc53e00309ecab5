-- ===== src/Dashboard.antt =====
-- The dashboard store: frontend/lib/dashboard-context.tsx.
pub mod Store
pub mod Stream
pub mod Freshness
pub mod Events
pub mod Connection
mod Tests
