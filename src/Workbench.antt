-- ===== src/Workbench.antt =====
-- Searching and filtering the piles: frontend/lib/workbench.ts and frontend/lib/dashboard-filters.ts,
-- and the queries of the address bar (frontend/lib/dashboard-query.ts).
pub mod Selection
pub mod Hits
pub mod Agreement
pub mod Query
pub mod Address
mod Tests
