-- ===== src/Wallet/Keys/Opening.antt =====
-- What `ParseWallet` and `OpenWallet` make of a wallet.
use contact_server.Base.{
  ◌≡◌, String, true, false, none, some, length, ok, arith, Result-cases, List-cases, inl, inr,
}
use contact_server.Wallet.Hex.{
  IsBytes, hex_encode, hex_decode, hex_decode_bytes, text_bytes, hex_decode-hex_encode,
  hex_encode-IsBytes,
}
use contact_server.Wallet.Address.{Crypto}
use contact_server.Wallet.Cipher.{
  Bytes, Aes, IsLawful, CipherData, drop, unpad, encrypt_aes, decrypt_aes,
}
use contact_server.Wallet.Cipher.RoundTrip.{decrypt_aes-encrypt_aes, unpad-hex_encode}
use contact_server.Wallet.Keys.{
  MailKey, Wallet, KeyMaker, key_of, key_from_seed, sign_message, sign_with_key, to_wallet,
  stored_key, parse_wallet, open_wallet,
}

-- What the code relies on of the parameters: base58 is read back, an Ed25519 key has 64 bytes, and
-- its own signatures, which are bytes, are accepted.
pub record IsKeyMaker (c : Crypto) (k : KeyMaker) : Type 0 where
  pub base58 : (b : Bytes) → IsBytes b → c.base58_decode (k.base58_encode b) ≡ b
  pub keys :
      (seed : Bytes) → length seed ≡ 32 → (length (k.new_key seed) ≡ 64) × IsBytes (k.new_key seed)
  pub accepts :
      (seed m : Bytes)
      → length seed ≡ 32
      → c.verifies (drop 32 (k.new_key seed)) m (k.sign (k.new_key seed) m) ≡ true
  pub sign-IsBytes : (key m : Bytes) → IsBytes (k.sign key m)

module _ (k : KeyMaker) (a : Aes) where
  -- A wallet whose encrypted seed makes a key of another address is refused by `OpenWallet` once,
  -- and the key stays: the next `OpenWallet`, under any password, succeeds, and the wallet signs
  -- with that key.
  pub open_wallet_twice :
      (w : Wallet) (mk : MailKey) (pwd other : String) (m : Bytes)
      → w.key ≡ none
      → stored_key k a w pwd ≡ ok mk
      → (open_wallet k a pwd w).0 ≡ ok false
      → let w' = (open_wallet k a pwd w).1 in
        ((open_wallet k a other w').0 ≡ ok true) × (sign_message k w' m ≡ ok (sign_with_key k mk m))
  unfolding open_wallet sign_message
  open_wallet_twice w mk pwd other m shut made refused = ground (arith, shut, made, refused)

module _ (k : KeyMaker) (a : Aes) (L : IsLawful a) (seed : Bytes) (pwd : String) (s : a.State) where
  abbrev seed_text : Bytes
  seed_text = text_bytes (hex_encode seed)

  unpadded : IsBytes seed → length seed ≡ 32 → unpad seed_text ≡ ok seed_text
  unpadded bytes size = elim (List-cases seed) [
    | inl empty ↦ absurd (ground (arith, empty, size))
    | inr (b, bs, e) ↦ rw e (unpad-hex_encode b bs (rw e at bytes))
  ]

  decoded : IsBytes seed → hex_decode_bytes seed_text ≡ ok seed
  unfolding hex_decode
  decoded bytes = hex_decode-hex_encode seed bytes

  abbrev wallet_of : CipherData → Wallet
  wallet_of d = record {
    address = some (key_of k seed).address;
    cipher_data = some d;
    version = 1;
    key = none;
  }

  opened :
      (d : CipherData)
      → IsBytes seed
      → length seed ≡ 32
      → decrypt_aes a d pwd ≡ unpad seed_text
      → stored_key k a (wallet_of d) pwd ≡ ok (key_of k seed)
  unfolding stored_key key_from_seed
  opened d bytes size e =
      rw (e) (rw (unpadded bytes size) (rw (decoded bytes) (ground (arith, size))))

  -- With a lawful AES and random source, what `ParseWallet` makes, under the same password, of a JSON
  -- text that is read as the wallet that `ToWallet` made of the key of a seed of 32 bytes, is that
  -- wallet with that key.
  pub parse_wallet-to_wallet :
      (w : Wallet) (json : String)
      → IsBytes seed
      → length seed ≡ 32
      → (to_wallet k a (key_of k seed) pwd s).0 ≡ ok w
      → k.unmarshal_wallet json ≡ ok w
      → parse_wallet k a json pwd ≡ ok (record w { key = some (key_of k seed) })
  unfolding to_wallet parse_wallet
  parse_wallet-to_wallet w json bytes size made read =
      elim (Result-cases (encrypt_aes a seed_text pwd s).0) [
        | inl (d, e) ↦
            let decrypted : decrypt_aes a d pwd ≡ unpad seed_text = ground (
              arith,
              e,
              decrypt_aes-encrypt_aes a L seed_text pwd s (hex_encode-IsBytes seed bytes),
            ) in
            let is_made : w ≡ wallet_of d = ground (arith, e, made) in
            let is_read : k.unmarshal_wallet json ≡ ok (wallet_of d) = cc (read, is_made) in
            rw is_made (ground (arith, is_read, opened d bytes size decrypted))
        | inr bad ↦ absurd (ground (arith, bad, made))
      ]
