-- ===== src/Client.antt =====
-- frontend/: the browser client of the API, its session, and the pages of its dashboard.
pub mod Api
pub mod Uri
pub mod Calls
pub mod Session
pub mod Keys
pub mod Limits
pub mod Checks
pub mod Overview
pub mod Nav
pub mod Site
