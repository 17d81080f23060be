-- ===== src/Settings.antt =====
-- configs: the settings that are read from the environment.
pub mod Env
pub mod App
pub mod Jwt
pub mod Throttle
