-- ===== src/Boundary.antt =====
-- src/http_boundary.rs and src/auth.rs: what a request meets before its handler. `RateLimiter` and
-- the modules below it are the fixed-window limiter, `Principals` and `Credentials` the callers.
pub mod Errors
pub mod RateLimiter
pub mod Principals
pub mod Credentials
pub mod Authentication
pub mod Scan
pub mod Guards
pub mod Courses
pub mod Access
mod Examples
