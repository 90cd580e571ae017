-- ===== src/Wallet/Curve.antt =====
-- `Ed2CurvePriKey` and `Ed2CurvePubKey` of wallet/edCurve.go. SHA-512 and the field of
-- wallet/edwards25519 are the parameter `Field`.
pub mod Clamp
use Prim.Native.Nat.{bit_and, bit_or}
use contact_server.Base.{
  ℕ, zero, suc, ◌-◌, List, [], ◌∷◌, Option, none, some, Result, ok, panic, ltb, length,
  if◌then◌else◌,
}
use contact_server.Wallet.Cipher.{Bytes, take}

-- `from_bytes_y` is `FromBytes` of a group element and its `Y`, of a key of 32 bytes.
pub record Field : Type 1 where
  pub Fe : Type 0
  pub fe_one : Fe
  pub fe_add : Fe → Fe → Fe
  pub fe_sub : Fe → Fe → Fe
  pub fe_mul : Fe → Fe → Fe
  pub fe_invert : Fe → Fe
  pub fe_to_bytes : Fe → Bytes
  pub from_bytes_y : Bytes → Option Fe
  pub sha512 : Bytes → Bytes

-- `copy` into an array of `n` bytes, which is zero at first.
unfoldable pub fit : ℕ → List ℕ → List ℕ
fit zero bytes = []
fit (suc n) [] = 0 ∷ fit n []
fit (suc n) (b ∷ bytes) = b ∷ fit n bytes

-- `bytes[i] = f(bytes[i])`, for an index in range.
abbrev pub update_at : ℕ → (ℕ → ℕ) → Bytes → Bytes
update_at i f [] = []
update_at zero f (b ∷ bs) = f b ∷ bs
update_at (suc i) f (b ∷ bs) = b ∷ update_at i f bs

-- `digest[0] &= 248`, and `digest[31] &= 127` with `digest[31] |= 64`.
abbrev pub clear_low : ℕ → ℕ
clear_low b = bit_and b 248

abbrev pub clear_high : ℕ → ℕ
clear_high b = bit_or (bit_and b 127) 64

unfoldable pub clamp : Bytes → Bytes
unfolding fit
clamp digest = fit 32 (update_at 31 clear_high (update_at 0 clear_low digest))

module _ (field : Field) where
  unfoldable pub ed2_curve_pri_key : Bytes → Result Bytes
  unfolding clamp
  ed2_curve_pri_key private_key =
      if ltb (length private_key) 32
      then panic "runtime error: slice bounds out of range"
      else ok (clamp (field.sha512 (take 32 private_key)))

  abbrev pub edwards_to_montgomery_x : field.Fe → field.Fe
  edwards_to_montgomery_x y =
      field.fe_mul (field.fe_add field.fe_one y) (field.fe_invert (field.fe_sub field.fe_one y))

  -- A nil slice is the empty list.
  unfoldable pub ed2_curve_pub_key : Bytes → Bytes
  unfolding fit
  ed2_curve_pub_key ed_pub = elim (field.from_bytes_y (fit 32 ed_pub)) [
    | none ↦ []
    | some y ↦ field.fe_to_bytes (edwards_to_montgomery_x y)
  ]
