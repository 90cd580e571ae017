-- ===== src/Redis.antt =====
-- db/db_redis: the database over Redis. `Client` is what it uses of go-redis and of JSON, `Account`
-- and `Reflect` are its files.
pub mod Keys
pub mod Client
pub mod Reflect
pub mod Account
pub mod Numbers
pub mod View
pub mod Steps
pub mod Binding
pub mod Unbinding
