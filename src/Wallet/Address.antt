-- ===== src/Wallet/Address.antt =====
-- `DecodePubKey` and `VerifyMessage` of wallet/wallet.go, `VerifySig` of wallet/edCurve.go.
-- base58 and the equation that Ed25519 checks are the parameter `Crypto`.
use contact_server.Base.{
  ℕ, String, Bool, List, none, some, Error, plain, Result, ok, err, panic, strip_prefix, length,
  eqb, if◌then◌else◌,
}
use contact_server.Wallet.Hex.{hex_decode}

-- `verifies` is the verdict of `ed25519.Verify` on a public key of the right length.
pub record Crypto : Type 0 where
  pub base58_decode : String → List ℕ
  pub verifies : List ℕ → List ℕ → List ℕ → Bool

-- A chain of calls with no state.
infixl 5 ◌>>=ᵣ◌
abbrev pub ◌>>=ᵣ◌ : {A B : Type 0} → Result A → (A → Result B) → Result B
ok a >>=ᵣ f = f a
err e >>=ᵣ f = err e
panic w >>=ᵣ f = panic w

abbrev pub bmail_addr_prefix : String
bmail_addr_prefix = "BM"

abbrev pub public_key_size : ℕ
public_key_size = 32

module _ (c : Crypto) where
  unfoldable pub decode_pub_key : String → Result (List ℕ)
  unfolding strip_prefix
  decode_pub_key key = elim (strip_prefix bmail_addr_prefix key) [
    | none ↦ err (plain "invalid public key prefix")
    | some encoded ↦ ok (c.base58_decode encoded)
  ]

  -- `ed25519.Verify` panics on a key of another length.
  abbrev ed25519_verify : List ℕ → List ℕ → List ℕ → Result Bool
  ed25519_verify key message sig =
      if eqb (length key) public_key_size
      then ok (c.verifies key message sig)
      else panic "ed25519: bad public key length"

  abbrev accept : Error → Bool → Result (Unit {0})
  accept e success = if success then ok tt else err e

  -- The three checks differ in the text of the error and in how the message is made.
  unfoldable pub verify_with : Error → String → String → Result (List ℕ) → Result (Unit {0})
  unfolding decode_pub_key
  verify_with e address signature message = decode_pub_key address >>=ᵣ λ peer_pub.
      hex_decode signature >>=ᵣ λ sig. message >>=ᵣ λ m. ed25519_verify peer_pub m sig >>=ᵣ accept e

  -- `VerifyMessage`
  unfoldable pub verify_message : String → String → List ℕ → Result (Unit {0})
  unfolding verify_with
  verify_message address signature message =
      verify_with (plain "signature verify failed") address signature (ok message)

  -- `VerifySig`, on the JSON text of the object, if it has one.
  unfoldable pub verify_sig : Result (List ℕ) → String → String → Result (Unit {0})
  unfolding verify_with
  verify_sig json sig peer_addr = verify_with (plain "ed25519 verify failed") peer_addr sig json
