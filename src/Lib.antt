-- ===== src/Lib.antt =====
-- Verification of the contact server: the Go service that maps email addresses to BMail addresses
-- (service/, db/, wallet/, common/, proto/, config.go, main.go).
--
-- The program. An account is an address "BM…" with a level and the emails bound to it; a
-- reflection is the address that one email is bound to. A database keeps both, and the links that
-- confirm a binding by mail, behind the interface `DatabaseI` of service/cfg.go. The HTTP service
-- takes requests whose payload is signed by an address, checks the signature, and calls a handler
-- that reads and changes the database; a few pages and a debug server are not signed.
--
-- The files.
--   Base: tests, texts, dictionaries (Go maps), and `Exec S A`, a method that changes a state
--     `S` and returns a value, an error or a panic; what was written before an error stays
--     written. `Keeps` has the rules by which such a method leaves something true of its state.
--   Common: common/db_obj.go and common/bmerror.go; `Agreement` is what a binding and its
--     removal come to, for any database.
--   Firestore: db/db_firestore. `Client` is the Firestore client as a parameter with its laws,
--     `Account`, `Reflect` and `Active` are account.go, email_reflect.go and active.go,
--     `Transaction` the transaction of email_reflect.go, which no code calls; `View` says what
--     the documents mean, `Steps` follows one call, and Binding, Unbinding, Levels, Links,
--     Counts, Growth, Shrinks, Consumed, Available, Consistency and Failures prove what the
--     methods do.
--   LevelDb: db/db_leveldb. `Keys` is the key space, `Client` goleveldb and JSON as a parameter
--     with laws and common.go over it, `Locks` getLock and releaseLock for one thread,
--     `LockTable` the same for several, `Numbers` the numbers and texts of common.go, `Account`
--     and `Reflect` account.go and email_reflect.go; `View` and `Steps` as for Firestore;
--     Binding, Unbinding and Deadlock prove what the methods do, Unlocked that they leave no
--     lock behind, Crossing what two of them do to each other.
--   Redis: db/db_redis. `Client` is go-redis and JSON as a parameter with laws, `Keys` the
--     prefixes of redis.go, `Numbers` the ParseInt of QueryAccount, `Account` and `Reflect`
--     account.go and email_reflect.go; `View` and `Steps` as above, and Binding and Unbinding
--     prove what the methods do.
--   Wallet: `Hex` is encoding/hex, `Cipher` wallet/crypto.go with CFB mode written out, `Curve`
--     the conversions of wallet/edCurve.go, `Keys` the keys and wallets of wallet/wallet.go,
--     `Address` its DecodePubKey and VerifyMessage with VerifySig of wallet/edCurve.go, `Peers`
--     its EncryptData and DecryptData; `Admin` and `Links` are wallet/wallet_inst.go.
--     Cipher/RoundTrip, Curve/Clamp, Keys/Opening, Links/Accepted and Admin/Matched prove what
--     they do.
--   Proto: the messages of proto/bmail_srv.proto and VerifyProto of proto/proto_ex.go.
--   Startup: config.go and main.go with the `InitConf` and `DbInst` of service/cfg.go, of the
--     three databases and of the wallet, from the package variables at the start of the process
--     to the database and the wallet that it serves with; Chosen, Configured and Refused prove
--     what the configuration decides, Started what the process then serves with; Printed is the
--     text that is printed of a configuration.
--   Service: `Database` is DatabaseI, `Levels` service/user_level.go, `World` the state that a
--     request changes, `Actions` the handlers behind callFunc, `Http` callFunc and the readers
--     and writers of service/http_io.go, `Pages` the unsigned endpoints of service/http_srv.go,
--     `Router` the routes of NewHttpService and what stands behind each, `Debug` the debug
--     server of Start with its client db/db_tool/dbtool.go, `Server` the serial runs of the
--     public server with its goroutines, `Directory` the interface that a database of bindings
--     meets, and `Stores` the service over Firestore, LevelDB and Redis, which all meet it; its
--     Bounded, Running and Unlocking say what holds in every state of a run, Replay what becomes
--     of a used link in one, Visited and SignUp how a new account comes to its email, Racing
--     what two requests at once do, Crashes what a goroutine does.
--   Tests: a Firestore client, a LevelDB and a Redis in memory, and the theorems at concrete
--     inputs.
--
-- How the code is read. A method of a pointer receiver takes its state and returns it beside its
-- result. A goroutine is a value in the list `spawned` of `World`, run by a step of its own. A
-- `SerialRun` of `Server` takes requests to the public routes and goroutines one at a time, each
-- whole, while the program serves them concurrently and runs the debug server beside: what is
-- stated of such runs is stated of nothing else; Service/Stores/Racing, LevelDb/Crossing and
-- LevelDb/LockTable are about what happens between the calls of two. A call of Firestore may fail
-- at any point, and a write that fails may have been made; a call's deadline is one such failure,
-- so the contexts are left out. The lock of a key that is held, by the caller itself or, in
-- LevelDb/Crossing, by another call, is a panic, the wait. `int8` and `int32` are bit patterns, so
-- conversions are written out. Times are seconds since 1970 and not negative. A Go map stands as
-- its entries in the order in which a `range` meets them, which no theorem fixes. What is logged
-- is left out.
--
-- Loops recur on the list they run over, so no fuel is needed; `decimal` has one round for each
-- unit of the number and one more, which is more than its digits.
--
-- Parameters: the Firestore client (`Firestore`, with `IsLawful` and `IsAvailable`, and
-- `Transaction`, with `ReadsFirst`), goleveldb with JSON (`LevelDb`, with its own `IsLawful`),
-- go-redis with JSON (`Redis`, the same), the protobuf codec; AES's block function, PBKDF2 and the
-- random source (`Aes`, with `IsLawful`); base58, Ed25519, Ethereum's address of a seed and a
-- wallet's JSON text (`Crypto` and `KeyMaker`, with `IsKeyMaker`); SHA-512 and the field of
-- wallet/edwards25519 (`Field`); X25519, NaCl's boxes and base64 (`Boxes`); the router of chi
-- (`Mux`, with `IsMux`), the JSON of the debug server (`Wire`), the files, JSON, openings and log
-- levels of the start (`Outside`); uuids, the clock and the mail server (`Smtp`); the bytes that
-- LevelDB keeps (`Raw`, with `IsRaw`).
--
-- Not modelled: wallet/edwards25519, a copy of another project's Ed25519 group arithmetic; the
-- code that protoc generates; what is logged and printed, but for the texts that `String` makes of
-- a configuration; the flags, the listening and the signals of the process; the dump of a LevelDB
-- directory by the command line tool; and functions that no code calls (VerifyReq, Req.VerifySig,
-- KeepAlive, CloseDB).
pub mod Base
pub mod Common
pub mod Firestore
pub mod LevelDb
pub mod Redis
pub mod Wallet
pub mod Proto
pub mod Startup
pub mod Service
pub mod Tests
