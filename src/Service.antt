-- ===== src/Service.antt =====
-- service: the HTTP service over any of the databases. `Database` is the interface `DatabaseI`,
-- `Levels` the user levels, `World` what a handler reads and changes, `Actions` the signed
-- requests, `Http` the envelope of a request and `Pages` the unsigned endpoints.
pub mod Database
pub mod Directory
pub mod Levels
pub mod World
pub mod Actions
pub mod Http
pub mod Pages
pub mod Stores
pub mod Router
pub mod Server
pub mod Debug
