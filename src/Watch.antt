-- ===== src/Watch.antt =====
-- Idle reminders: frontend/lib/watch-context.tsx (Store, Counting, Sorting, Rules,
-- Valid), the window test of frontend/components/watch-rule-dialog.tsx (Window), and the texts of
-- frontend/lib/watch-format.ts (Format, Estimates, Coverage, Clock).
pub mod Store
pub mod Sorting
pub mod Counting
pub mod Rules
pub mod Valid
pub mod Format
pub mod Page
pub mod Estimates
pub mod Coverage
pub mod Clock
pub mod Window
pub mod Sheet
pub mod Confirms
mod Tests
mod SheetTests
