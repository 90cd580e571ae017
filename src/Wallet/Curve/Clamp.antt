-- ===== src/Wallet/Curve/Clamp.antt =====
-- The private key of the curve is clamped.
use contact_server.Base.{
  ℕ, zero, suc, ◌%◌, ◌≡◌, refl, ◌≤◌, ◌<◌, true, ◌&&◌, [], ◌∷◌, length, eqb, ltb, leb, ok,
  each_below, each_below_lem, arith,
}
use contact_server.Wallet.Hex.{IsBytes}
use contact_server.Wallet.Cipher.{Bytes, take}
use contact_server.Wallet.Curve.{
  Field, fit, update_at, clear_low, clear_high, clamp, ed2_curve_pri_key,
}

abbrev pub byte_at : ℕ → Bytes → ℕ
byte_at i [] = 0
byte_at zero (b ∷ bs) = b
byte_at (suc i) (b ∷ bs) = byte_at i bs

length-fit : (n : ℕ) (bs : Bytes) → length (fit n bs) ≡ n
unfolding fit
length-fit zero bs = refl
length-fit (suc n) [] = omega (arith, length-fit n [])
length-fit (suc n) (b ∷ bs) = omega (arith, length-fit n bs)

byte_at-fit : (i n : ℕ) (bs : Bytes) → i < n → byte_at i (fit n bs) ≡ byte_at i bs
unfolding fit
byte_at-fit i zero bs h = absurd (omega arith)
byte_at-fit zero (suc n) [] h = refl
byte_at-fit (suc i) (suc n) [] h = byte_at-fit i n [] (omega arith)
byte_at-fit zero (suc n) (b ∷ bs) h = refl
byte_at-fit (suc i) (suc n) (b ∷ bs) h = byte_at-fit i n bs (omega arith)

byte_at-update_at :
    (i : ℕ) (f : ℕ → ℕ) (bs : Bytes)
    → i < length bs
    → byte_at i (update_at i f bs) ≡ f (byte_at i bs)
byte_at-update_at i f [] h = absurd (omega arith)
byte_at-update_at zero f (b ∷ bs) h = refl
byte_at-update_at (suc i) f (b ∷ bs) h = byte_at-update_at i f bs (omega arith)

byte_at-update_after :
    (i : ℕ) (f : ℕ → ℕ) (bs : Bytes) → byte_at 0 (update_at (suc i) f bs) ≡ byte_at 0 bs
byte_at-update_after i f [] = refl
byte_at-update_after i f (b ∷ bs) = refl

length-update_at : (i : ℕ) (f : ℕ → ℕ) (bs : Bytes) → length (update_at i f bs) ≡ length bs
length-update_at i f [] = refl
length-update_at zero f (b ∷ bs) = refl
length-update_at (suc i) f (b ∷ bs) = omega (arith, length-update_at i f bs)

byte_at-lt : (i : ℕ) (bs : Bytes) → IsBytes bs → byte_at i bs < 256
byte_at-lt i [] h = omega arith
byte_at-lt zero (b ∷ bs) (lt, h) = lt
byte_at-lt (suc i) (b ∷ bs) (lt, h) = byte_at-lt i bs h

update_at-IsBytes :
    (i : ℕ) (f : ℕ → ℕ) (bs : Bytes)
    → ((b : ℕ) → b < 256 → f b < 256)
    → IsBytes bs
    → IsBytes (update_at i f bs)
update_at-IsBytes i f [] keep h = tt
update_at-IsBytes zero f (b ∷ bs) keep (lt, h) = (keep b lt, h)
update_at-IsBytes (suc i) f (b ∷ bs) keep (lt, h) = (lt, update_at-IsBytes i f bs keep h)

fit-IsBytes : (n : ℕ) (bs : Bytes) → IsBytes bs → IsBytes (fit n bs)
unfolding fit
fit-IsBytes zero bs h = tt
fit-IsBytes (suc n) [] h = (omega arith, fit-IsBytes n [] tt)
fit-IsBytes (suc n) (b ∷ bs) (lt, h) = (lt, fit-IsBytes n bs h)

-- Every byte is tried.
low_table : each_below (λ b. eqb (clear_low b % 8) 0 && ltb (clear_low b) 256) 256 ≡ true
unfolding each_below
low_table = refl

high_table : each_below (λ b. leb 64 (clear_high b) && ltb (clear_high b) 128) 256 ≡ true
unfolding each_below
high_table = refl

clear_low_lem : (b : ℕ) → b < 256 → (clear_low b % 8 ≡ 0) × (clear_low b < 256)
clear_low_lem b lt = ground (
  arith,
  each_below_lem (λ b. eqb (clear_low b % 8) 0 && ltb (clear_low b) 256) 256 b lt low_table,
)

clear_high_lem : (b : ℕ) → b < 256 → (64 ≤ clear_high b) × (clear_high b < 128)
clear_high_lem b lt = ground (
  arith,
  each_below_lem (λ b. leb 64 (clear_high b) && ltb (clear_high b) 128) 256 b lt high_table,
)

-- A private key of Curve25519: 32 bytes, a multiple of 8, with bit 254 set and bit 255 clear.
pub record IsClamped (key : Bytes) : Type 0 where
  pub size : length key ≡ 32
  pub bytes : IsBytes key
  pub low : byte_at 0 key % 8 ≡ 0
  pub high : (64 ≤ byte_at 31 key) × (byte_at 31 key < 128)

-- `Ed2CurvePriKey` of a key of 32 bytes or more returns a clamped key, where SHA-512 of the first
-- 32 of them is 64 bytes.
pub ed2_curve_pri_key-IsClamped :
    (field : Field) (key : Bytes)
    → 32 ≤ length key
    → length (field.sha512 (take 32 key)) ≡ 64
    → IsBytes (field.sha512 (take 32 key))
    → (d : Bytes) × (ed2_curve_pri_key field key ≡ ok d) × IsClamped d
unfolding ed2_curve_pri_key clamp
ed2_curve_pri_key-IsClamped field key long size bytes =
    let digest = field.sha512 (take 32 key) in
    let low = update_at 0 clear_low digest in
    let both = update_at 31 clear_high low in
    let low_bytes : IsBytes low =
      update_at-IsBytes 0 clear_low digest (λ b lt. (clear_low_lem b lt).1) bytes in
    (
      fit 32 both,
      ground (arith, long),
      record {
        size = length-fit 32 both;
        bytes = fit-IsBytes 32 both (
            update_at-IsBytes 31 clear_high low (λ b lt. omega (arith, clear_high_lem b lt))
              low_bytes);
        low = rw (byte_at-fit 0 32 both (omega arith)) (
            rw (byte_at-update_after 30 clear_high low) (
              rw (byte_at-update_at 0 clear_low digest (omega (arith, size)))
                (clear_low_lem (byte_at 0 digest) (byte_at-lt 0 digest bytes)).0));
        high = rw (byte_at-fit 31 32 both (omega arith)) (
            rw
              (byte_at-update_at 31 clear_high low
                (omega (arith, size, length-update_at 0 clear_low digest)))
              (clear_high_lem (byte_at 31 low) (byte_at-lt 31 low low_bytes)));
      },
    )
