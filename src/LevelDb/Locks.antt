-- ===== src/LevelDb/Locks.antt =====
-- `getLock` and `releaseLock` of db/db_leveldb/leveldb.go for one thread: a mutex is not reentrant,
-- so a call that asks for a key that it holds waits for ever, which is the panic `deadlock` here.
use contact_server.Base.{String, List, [], ◌∷◌, has, ◌==◌, if◌then◌else◌, panic, Exec}

-- The manager: the database and the keys whose lock is held.
pub record Manager (S : Type 0) : Type 0 where
  pub level_db : S
  pub held : List String

-- `dm.locker.Delete(key)`
unfoldable pub unlock : String → List String → List String
unlock key [] = []
unlock key (k ∷ ks) = let rest = unlock key ks in if k == key then rest else k ∷ rest

module _ {S A : Type 0} where
  -- A call of the database.
  abbrev pub at_db : Exec S A → Exec (Manager S) A
  at_db m dm = let (r, s) = m dm.level_db in (r, record dm { level_db = s })

  -- `lock := dm.getLock(key)` with `defer dm.releaseLock(key, lock)` round a body.
  unfoldable pub with_lock : String → Exec (Manager S) A → Exec (Manager S) A
  with_lock key body dm =
      let (r, dm') = body (record dm { held = key ∷ dm.held }) in
      if has dm.held key
      then (panic "deadlock", dm)
      else (r, record dm' { held = unlock key dm'.held })
