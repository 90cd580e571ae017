-- ===== src/Tests/Numbers.antt =====
-- The numbers of db/db_leveldb/common.go in the LevelDB in memory.
use contact_server.Base.{ℕ, ◌≡◌, refl, ◌⊎◌, List, [], Error, ok, err, arith}
use contact_server.LevelDb.Numbers.{Raw, IsRaw, write_int, read_int, read_int-write_int}
use contact_server.Tests.Levels.{
  Value, account, reflect, raw, Store, level_memory, level_memory-IsLawful, start_store, get, set,
}

abbrev bytes_of : Value → List ℕ
bytes_of (raw bs) = bs
bytes_of (account a) = []
bytes_of (reflect r) = []

abbrev as_raw : Raw level_memory
as_raw = record { of_bytes = raw; to_bytes = bytes_of; text_bytes = λ s. []; bytes_text = λ bs. "" }

as_raw-IsRaw : IsRaw as_raw
as_raw-IsRaw = record { kept = λ bs. refl }

-- -2, as a bit pattern.
abbrev minus_two : ℕ
minus_two = 18446744073709551614

abbrev counted : Store
counted = (write_int level_memory as_raw "n" minus_two start_store).1

read_int-write_int_example :
    ((read_int level_memory as_raw "n" counted).0 ≡ ok minus_two)
    ⊎ ((e : Error) × ((get "n" counted).0 ≡ err e)
        × ((read_int level_memory as_raw "n" counted).0 ≡ err e))
unfolding write_int set
read_int-write_int_example =
    read_int-write_int level_memory level_memory-IsLawful as_raw as_raw-IsRaw "n" start_store
      minus_two (omega arith) refl
