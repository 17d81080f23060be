-- ===== src/Server.antt =====
-- main.go, routes, app/container and app/providers: the process, its boot and the answers of its routes.
pub mod Container
pub mod Routes
pub mod Engine
pub mod Pool
pub mod Boot
pub mod Main
pub mod Rules
