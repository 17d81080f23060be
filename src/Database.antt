-- ===== src/Database.antt =====
-- database/ and app/services/core/pgsql_service.go: migrations, seeders, and the connection.
pub mod Interface
pub mod Service
pub mod Migrator
pub mod Factory
pub mod Seeder
