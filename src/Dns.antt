-- ===== src/Dns.antt =====
-- The package dns: the cache, the rate limiter, the upstream list and the server.
pub mod Message
pub mod Ttl
pub mod Cache
pub mod RateLimit
pub mod Race
pub mod Server
pub mod Upstream
pub mod Setup
pub mod Pool
pub mod Doh
pub mod Lifecycle
pub mod Hosts
