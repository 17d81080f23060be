-- ===== src/App.antt =====
-- The application behind the middlewares: models, services, resources and controllers.
pub mod Models
pub mod Resources
pub mod Hash
pub mod Tokens
pub mod Login
pub mod Events
pub mod Verifications
