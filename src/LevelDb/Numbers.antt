-- ===== src/LevelDb/Numbers.antt =====
-- `WriteInt`, `ReadInt`, `WriteString` and `ReadString` of db/db_leveldb/common.go. An `int64` is its
-- bit pattern, so its conversion to `uint64` and back is none. What a text's bytes are is a parameter.
use contact_server.Base.{
  ℕ, zero, suc, ◌+◌, ◌*◌, ◌/◌, ◌%◌, ◌^◌, ◌<◌, ◌≡◌, refl, ◌⊎◌, inl, inr, String, List, [], ◌∷◌, ◌++◌,
  length, eqb, not, if◌then◌else◌, plain, Error, Result-cases, ok, err, Exec, pure, raise, ◌>>=◌,
  arith,
}
use contact_server.LevelDb.Client.{LevelDb, IsLawful}

-- `binary.BigEndian`, of `n` bytes.
unfoldable pub big_endian : ℕ → ℕ → List ℕ
big_endian zero v = []
big_endian (suc n) v = big_endian n (v / 256) ++ (v % 256 ∷ [])

unfoldable pub from_big_endian : List ℕ → ℕ → ℕ
from_big_endian [] acc = acc
from_big_endian (b ∷ bs) acc = from_big_endian bs (acc * 256 + b)

-- The bytes that are stored, as LevelDB keeps them.
pub record Raw (ldb : LevelDb) : Type 0 where
  pub of_bytes : List ℕ → ldb.Bytes
  pub to_bytes : ldb.Bytes → List ℕ
  pub text_bytes : String → List ℕ
  pub bytes_text : List ℕ → String

-- What is stored is what is read.
pub record IsRaw {ldb : LevelDb} (raw : Raw ldb) : Type 0 where
  pub kept : (bs : List ℕ) → raw.to_bytes (raw.of_bytes bs) ≡ bs

module _ (ldb : LevelDb) (raw : Raw ldb) where
  unfoldable write_string : String → String → Exec ldb.State (Unit {0})
  write_string key value = ldb.put key (raw.of_bytes (raw.text_bytes value))

  unfoldable read_string : String → Exec ldb.State String
  read_string key = do bs ← ldb.get key; pure (raw.bytes_text (raw.to_bytes bs))

  unfoldable pub write_int : String → ℕ → Exec ldb.State (Unit {0})
  write_int key value = ldb.put key (raw.of_bytes (big_endian 8 value))

  unfoldable pub read_int : String → Exec ldb.State ℕ
  read_int key = do
    bs ← ldb.get key
    if not (eqb (length (raw.to_bytes bs)) 8)
        then raise (plain "invalid data length for int64")
        else pure (from_big_endian (raw.to_bytes bs) 0)

length-append-one : (xs : List ℕ) (b : ℕ) → length (xs ++ (b ∷ [])) ≡ length xs + 1
length-append-one [] b = refl
length-append-one (x ∷ xs) b = ground (arith, length-append-one xs b)

length-big_endian : (n v : ℕ) → length (big_endian n v) ≡ n
unfolding big_endian
length-big_endian zero v = refl
length-big_endian (suc n) v =
    ground
      (arith, length-big_endian n (v / 256), length-append-one (big_endian n (v / 256)) (v % 256))

from_big_endian-append :
    (xs : List ℕ) (b acc : ℕ)
    → from_big_endian (xs ++ (b ∷ [])) acc ≡ from_big_endian xs acc * 256 + b
unfolding from_big_endian
from_big_endian-append [] b acc = refl
from_big_endian-append (x ∷ xs) b acc = from_big_endian-append xs b (acc * 256 + x)

upper : (n v : ℕ) → v < 256 ^ suc n → v / 256 < 256 ^ n
upper n v small = omega (arith, small)

from_big_endian-big_endian : (n v : ℕ) → v < 256 ^ n → from_big_endian (big_endian n v) 0 ≡ v
unfolding big_endian from_big_endian
from_big_endian-big_endian zero v small = omega (arith, small)
from_big_endian-big_endian (suc n) v small = ground (
  arith,
  from_big_endian-append (big_endian n (v / 256)) (v % 256) 0,
  from_big_endian-big_endian n (v / 256) (upper n v small),
)

module _ (ldb : LevelDb) (L : IsLawful ldb) (raw : Raw ldb) (R : IsRaw raw) (key : String)
    (s : ldb.State) where
  -- With a lawful LevelDB, a `ReadInt` after a `WriteInt` that succeeded returns the value that was
  -- written, for every 64 bits, or fails as the database's `Get` does, and never for the length.
  pub read_int-write_int :
      (v : ℕ)
      → v < 2 ^ 64
      → (write_int ldb raw key v s).0 ≡ ok tt
      → let s' = (write_int ldb raw key v s).1 in
        ((read_int ldb raw key s').0 ≡ ok v)
        ⊎ ((e : Error) × ((ldb.get key s').0 ≡ err e) × ((read_int ldb raw key s').0 ≡ err e))
  unfolding write_int read_int
  read_int-write_int v small done =
      let stored = L.put_writes key (raw.of_bytes (big_endian 8 v)) s key in
      let s' = (ldb.put key (raw.of_bytes (big_endian 8 v)) s).1 in
      elim (Result-cases (ldb.get key s').0) [
        | inl (bs, got) ↦ inl (
            ground (
              arith,
              done,
              stored,
              got,
              L.get_reads key s',
              R.kept (big_endian 8 v),
              length-big_endian 8 v,
              from_big_endian-big_endian 8 v (omega (arith, small)),
            ))
        | inr (inl (e, failed)) ↦ inr (e, failed, ground (arith, failed))
        | inr (inr (w, failed)) ↦ absurd (ground (arith, failed, L.get_reads key s'))
      ]

  -- The same for a text, which its bytes give back.
  read_string-write_string :
      (text : String)
      → raw.bytes_text (raw.text_bytes text) ≡ text
      → (write_string ldb raw key text s).0 ≡ ok tt
      → let s' = (write_string ldb raw key text s).1 in
        ((read_string ldb raw key s').0 ≡ ok text)
        ⊎ ((e : Error) × ((ldb.get key s').0 ≡ err e) × ((read_string ldb raw key s').0 ≡ err e))
  unfolding write_string read_string
  read_string-write_string text given_back done =
      let bytes = raw.of_bytes (raw.text_bytes text) in
      let s' = (ldb.put key bytes s).1 in
      elim (Result-cases (ldb.get key s').0) [
        | inl (bs, got) ↦ inl (
            ground (
              arith,
              done,
              L.put_writes key bytes s key,
              got,
              L.get_reads key s',
              R.kept (raw.text_bytes text),
              given_back,
            ))
        | inr (inl (e, failed)) ↦ inr (e, failed, ground (arith, failed))
        | inr (inr (w, failed)) ↦ absurd (ground (arith, failed, L.get_reads key s'))
      ]
