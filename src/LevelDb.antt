-- ===== src/LevelDb.antt =====
-- db/db_leveldb: the database over LevelDB. `Client` is what it uses of goleveldb and of JSON,
-- `Locks` the lock of a key, `Reflect` and `Account` are its files.
pub mod Keys
pub mod Client
pub mod Locks
pub mod Reflect
pub mod Account
pub mod View
pub mod Steps
pub mod Binding
pub mod Unbinding
pub mod Deadlock
pub mod LockTable
pub mod Crossing
pub mod Unlocked
pub mod Numbers
