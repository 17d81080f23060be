-- ===== src/Throttle.antt =====
-- app/services/throttle: named allowances and the token bucket store that counts against them.
pub mod Float64
pub mod Limit
pub mod Memory
pub mod Config
