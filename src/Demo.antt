-- ===== src/Demo.antt =====
-- The pages of frontend-demo/app.
pub mod Meters
pub mod Playground
pub mod Live
pub mod Feed
pub mod Sparkline
pub mod Nav
pub mod Overview
