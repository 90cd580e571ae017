-- ===== src/Tests/Locks.antt =====
-- The theorems on the lock table of db/db_leveldb at two threads, of which the first is inside and
-- the second waits.
use contact_server.Base.{◌≡◌, refl, arith}
use contact_server.LevelDb.LockTable.{
  System, Reach, here, then_step, loads, locks, inside, init, after_load, after_lock,
  lock_not_exclusive,
}

abbrev contended : System
contended = after_load 1 (after_lock 0 0 (after_load 0 init))

contended-Reach : Reach init contended
contended-Reach =
    then_step (then_step (then_step here (loads 0 refl)) (locks 0 refl refl)) (loads 1 refl)

lock_not_exclusive_example :
    (t : System) × Reach contended t × (t.place 0 ≡ inside 1) × (t.place 1 ≡ inside 0)
lock_not_exclusive_example =
    lock_not_exclusive contended-Reach 0 1 0 (λ h. omega (arith, h)) refl refl
