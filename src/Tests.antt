-- ===== src/Tests.antt =====
-- Runs of the development on concrete inputs, and instances of its theorems.
pub mod Boards
pub mod Calendar
pub mod Codes
pub mod Devices
pub mod Keeping
pub mod Limits
pub mod Phones
pub mod Plans
pub mod Repeating
pub mod Schedules
pub mod Sends
pub mod Stopping
