-- ===== src/Prototype.antt =====
-- frontend/app/prototype: the preview of the console, with data of its own that it keeps in the browser.
pub mod Model
pub mod Fixtures
pub mod Samples
pub mod Seed
pub mod Update
pub mod Change
pub mod Recipes
pub mod Plays
pub mod Consistent
pub mod Waiting
pub mod App
pub mod Checks
pub mod Buttons
pub mod Forms
pub mod Answers
pub mod Events
pub mod Settings
pub mod Fair
pub mod Sound
pub mod Log
pub mod Once
pub mod Storage
pub mod Stored
pub mod Store
pub mod Views
pub mod Routes
pub mod Addresses
pub mod Moves
pub mod Limits
pub mod Listing
mod Tests
