-- ===== src/Http.antt =====
-- backend/src/http: the guards in front of the routes and what they share.
pub mod Message
pub mod Cookie
pub mod RateLimiter
pub mod ClientKey
pub mod Csrf
pub mod Requests
pub mod AdminAuth
pub mod RateLimit
pub mod Dto
pub mod Handlers
pub mod Router
pub mod Tests
