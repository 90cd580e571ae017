-- ===== src/Wallet.antt =====
-- wallet: keys, signatures and mails. `Address` holds the address format and the checks of a
-- signature, `Admin` the key of the server and what it decrypts, `Links` the activation links.
pub mod Hex
pub mod Address
pub mod Admin
pub mod Links
pub mod Cipher
pub mod Curve
pub mod Keys
pub mod Peers
