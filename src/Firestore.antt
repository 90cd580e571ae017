-- ===== src/Firestore.antt =====
-- db/db_firestore: the database over Firestore. `Client` is what it uses of the Firestore client,
-- `Reflect`, `Account` and `Active` are its files; the other modules prove what they do.
pub mod Client
pub mod Reflect
pub mod Account
pub mod Active
pub mod View
pub mod Steps
pub mod Binding
pub mod Unbinding
pub mod Levels
pub mod Consistency
pub mod Failures
pub mod Links
pub mod Counts
pub mod Shrinks
pub mod Growth
pub mod Consumed
pub mod Available
pub mod Transaction
