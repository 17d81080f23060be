-- ===== src/Http.antt =====
-- The HTTP layer: app/exceptions, app/http/responses and app/http/middlewares.
pub mod Errors
pub mod Exceptions
pub mod Context
pub mod Middlewares
pub mod Cors
