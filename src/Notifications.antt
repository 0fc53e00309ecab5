-- ===== src/Notifications.antt =====
-- The notification store: frontend/lib/notification-context.tsx, with the quiet hours and the
-- wording that it asks of frontend/lib/notification-time.ts and notification-semantics.ts.
pub mod Semantics
pub mod Quiet
pub mod Store
pub mod Actions
pub mod Permission
pub mod Stream
pub mod Listing
pub mod Events
pub mod Loads
pub mod Unique
pub mod Filters
pub mod Unread
pub mod Browser
pub mod Cyclic
mod Tests
