-- ===== src/LevelDb/LockTable.antt =====
-- `getLock` and `releaseLock` of db/db_leveldb/leveldb.go for several threads, at one key: the
-- `sync.Map` holds a mutex or none, `getLock` loads or stores one and then locks it, and
-- `releaseLock` unlocks it and then deletes whatever the map holds.
use contact_server.Base.{
  ℕ, suc, ◌≡◌, ◌≢◌, ◌<◌, Bool, true, false, Option, none, some, if◌then◌else◌, eqb, arith,
}

-- Where a thread stands, and the mutex that it has in hand.
pub data Place : Type 0 where
  idle : Place
  waiting : ℕ → Place
  inside : ℕ → Place
  unlocked : ℕ → Place

-- A mutex is its number; `fresh` is the number of the next `&sync.Mutex{}`.
pub record Table : Type 0 where
  pub current : Option ℕ
  pub fresh : ℕ
  pub locked : ℕ → Bool

pub record System : Type 0 where
  pub table : Table
  pub place : ℕ → Place

-- `dm.locker.LoadOrStore(key, &sync.Mutex{})`
abbrev pub load_or_store : Table → ℕ × Table
load_or_store t = elim t.current [
  | some m ↦ (m, t)
  | none ↦ (t.fresh, record t { current = some t.fresh; fresh = suc t.fresh })
]

-- `lock.Lock()` and `lock.Unlock()`
abbrev pub set_locked : ℕ → Bool → Table → Table
set_locked m b t = record t { locked = λ n. if eqb n m then b else t.locked n }

-- `dm.locker.Delete(key)`
abbrev pub clear_key : Table → Table
clear_key t = record t { current = none }

abbrev pub move : ℕ → Place → (ℕ → Place) → ℕ → Place
move i p place j = if eqb j i then p else place j

abbrev pub after_load : ℕ → System → System
after_load i s =
    let (m, t) = load_or_store s.table in record { table = t; place = move i (waiting m) s.place }

abbrev pub after_lock : ℕ → ℕ → System → System
after_lock i m s = record { table = set_locked m true s.table; place = move i (inside m) s.place }

abbrev after_unlock : ℕ → ℕ → System → System
after_unlock i m s = record {
  table = set_locked m false s.table;
  place = move i (unlocked m) s.place;
}

abbrev after_delete : ℕ → System → System
after_delete i s = record { table = clear_key s.table; place = move i idle s.place }

pub data Step (s : System) : System → Type 0 where
  loads : (i : ℕ) → s.place i ≡ idle → Step s (after_load i s)
  locks :
      (i : ℕ) {m : ℕ} → s.place i ≡ waiting m → s.table.locked m ≡ false → Step s (after_lock i m s)
  unlocks : (i : ℕ) {m : ℕ} → s.place i ≡ inside m → Step s (after_unlock i m s)
  deletes : (i : ℕ) {m : ℕ} → s.place i ≡ unlocked m → Step s (after_delete i s)

-- The runs from one state.
pub data Reach (s : System) : System → Type 0 where
  here : Reach s s
  then_step : {t u : System} → Reach s t → Step t u → Reach s u

abbrev pub init : System
init = record {
  table = record { current = none; fresh = 0; locked = λ n. false };
  place = λ i. idle;
}

record IsSound (s : System) : Type 0 where
  held : (i m : ℕ) → s.place i ≡ inside m → s.table.locked m ≡ true
  alone : (i j m : ℕ) → s.place i ≡ inside m → s.place j ≡ inside m → i ≡ j
  stored : (m : ℕ) → s.table.current ≡ some m → m < s.table.fresh
  waited : (i m : ℕ) → s.place i ≡ waiting m → m < s.table.fresh
  known : (m : ℕ) → s.table.locked m ≡ true → m < s.table.fresh

Step-IsSound : {s t : System} → IsSound s → Step s t → IsSound t
Step-IsSound {s = s} c (loads i p) = record {
  held = λ j m h. ground (arith, p, c.held j m);
  alone = λ j k m h h'. ground (arith, p, c.alone j k m);
  stored = λ m h. ground (arith, c.stored m);
  waited = λ j m h. ground (arith, c.waited j m, c.stored m);
  known = λ m h. ground (arith, c.known m);
}
Step-IsSound {s = s} c (locks i {m = n} p free) = record {
  held = λ j m h. ground (arith, c.held j m);
  alone = λ j k m h h'. ground (arith, free, c.alone j k m, c.held j m, c.held k m);
  stored = λ m h. c.stored m h;
  waited = λ j m h. ground (arith, c.waited j m);
  known = λ m h. ground (arith, c.known m, c.waited i n p);
}
Step-IsSound {s = s} c (unlocks i {m = n} p) = record {
  held = λ j m h. ground (arith, p, c.held j m, c.alone i j n);
  alone = λ j k m h h'. ground (arith, c.alone j k m);
  stored = λ m h. c.stored m h;
  waited = λ j m h. ground (arith, c.waited j m);
  known = λ m h. ground (arith, c.known m);
}
Step-IsSound {s = s} c (deletes i p) = record {
  held = λ j m h. ground (arith, c.held j m);
  alone = λ j k m h h'. ground (arith, c.alone j k m);
  stored = λ m h. ground arith;
  waited = λ j m h. ground (arith, c.waited j m);
  known = λ m h. c.known m h;
}

Reach-IsSound : {s : System} → Reach init s → IsSound s
Reach-IsSound here = record {
  held = λ i m h. ground arith;
  alone = λ i j m h h'. ground arith;
  stored = λ m h. ground arith;
  waited = λ i m h. ground arith;
  known = λ m h. ground arith;
}
Reach-IsSound (then_step r st) = Step-IsSound (Reach-IsSound r) st

-- The lock of a key is not exclusive: from every state that threads reach from the start
-- in which one thread is inside and another waits for the same mutex, they reach a state in which
-- both are inside, for the first comes back and finds the key deleted, and makes a new mutex.
pub lock_not_exclusive :
    {s : System}
    → Reach init s
    → (i j m : ℕ) → i ≢ j
    → s.place i ≡ inside m
    → s.place j ≡ waiting m
    → (t : System) × Reach s t × (t.place i ≡ inside s.table.fresh) × (t.place j ≡ inside m)
lock_not_exclusive {s = s} r i j m differ first second =
    let sound = Reach-IsSound r in
    let old : m < s.table.fresh = sound.waited j m second in
    let s1 = after_unlock i m s in
    let s2 = after_lock j m s1 in
    let s3 = after_delete i s2 in
    let s4 = after_load i s3 in
    let s5 = after_lock i s.table.fresh s4 in
    let r1 : Reach s s1 = then_step here (unlocks i first) in
    let r2 : Reach s s2 = then_step r1 (locks j (ground (arith, differ, second)) (ground arith)) in
    let r3 : Reach s s3 = then_step r2 (deletes i {m = m} (ground (arith, differ))) in
    let r4 : Reach s s4 = then_step r3 (loads i (ground arith)) in
    let r5 : Reach s s5 =
      then_step r4 (locks i (ground arith) (ground (arith, old, sound.known s.table.fresh))) in
    (s5, r5, ground arith, ground (arith, differ))
