-- ===== src/Backend.antt =====
-- The backend (backend/internal): its rate limiter and the handler of `POST /api/v1/check` with
-- the middleware before it.
pub mod Auth
pub mod Store
pub mod Handlers
pub mod Keys
pub mod Accounts
pub mod Api
pub mod Check
pub mod Limits
pub mod Fraction
pub mod Redis
pub mod RateLimit
