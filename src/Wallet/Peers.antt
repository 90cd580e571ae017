-- ===== src/Wallet/Peers.antt =====
-- `EncryptData` and `DecryptData` of wallet/wallet.go: texts between two wallets, under the key that
-- they share. Each calls the function of the other's name.
use contact_server.Base.{
  some, ◌≡◌, String, Result, ok, Exec, lift, ◌>>=◌, IfOk, arith, Result-cases, inl, inr,
}
use contact_server.Wallet.Hex.{IsBytes}
use contact_server.Wallet.Address.{Crypto, decode_pub_key, ◌>>=ᵣ◌}
use contact_server.Wallet.Cipher.{Bytes, Aes, IsLawful, encrypt_by_key, decrypt_by_key}
use contact_server.Wallet.Cipher.RoundTrip.{decrypt_by_key-encrypt_by_key}
use contact_server.Wallet.Curve.{Field, ed2_curve_pri_key, ed2_curve_pub_key}
use contact_server.Wallet.Keys.{Wallet, MailKey}
use contact_server.Wallet.Admin.{Boxes, key_from_peer_addr}

module _ (c : Crypto) (f : Field) (b : Boxes) (a : Aes) where
  unfoldable pub encrypt_data : Wallet → String → String → Result Bytes
  encrypt_data w peer_addr msg =
      key_from_peer_addr c f b w peer_addr >>=ᵣ λ aes_key. decrypt_by_key a msg aes_key

  unfoldable pub decrypt_data : Wallet → String → Bytes → Exec a.State String
  decrypt_data w peer_addr msg =
      lift (key_from_peer_addr c f b w peer_addr) >>= λ aes_key. encrypt_by_key a msg aes_key

  -- What RFC 7748 says of X25519: two private keys and each other's public keys, which are
  -- `X25519` of the key and the base point, give one shared secret.
  abbrev pub IsExchange : Bytes → Type 0
  IsExchange base =
      (pri pri' pub_key pub_key' : Bytes)
      → b.x25519 pri base ≡ ok pub_key
      → b.x25519 pri' base ≡ ok pub_key'
      → b.x25519 pri pub_key' ≡ b.x25519 pri' pub_key

  -- An open wallet with a private key for Curve25519, whose address holds an Ed25519 public key that
  -- `Ed2CurvePubKey` turns into the public key of that private key.
  pub record IsPeer (base : Bytes) (w : Wallet) (addr : String) : Type 0 where
    pub key : MailKey
    pub is_open : w.key ≡ some key
    pub pri : Bytes
    pub to_pri : ed2_curve_pri_key f key.pri_key ≡ ok pri
    pub ed_pub : Bytes
    pub to_pub : decode_pub_key c addr ≡ ok ed_pub
    pub matches : b.x25519 pri base ≡ ok (ed2_curve_pub_key f ed_pub)

  shared :
      (base : Bytes)
      → IsExchange base
      → (w w' : Wallet) (addr addr' : String) → IsPeer base w addr
      → IsPeer base w' addr'
      → key_from_peer_addr c f b w addr' ≡ key_from_peer_addr c f b w' addr
  unfolding key_from_peer_addr
  shared base dh w w' addr addr' p p' = ground (
    arith,
    p.is_open,
    p'.is_open,
    p.to_pri,
    p'.to_pri,
    p.to_pub,
    p'.to_pub,
    dh p.pri p'.pri (ed2_curve_pub_key f p.ed_pub) (ed2_curve_pub_key f p'.ed_pub) p.matches
        p'.matches,
  )

  -- With a lawful AES and random source, and an X25519 that gives two keys one shared secret: of two
  -- open wallets whose addresses hold public keys that `Ed2CurvePubKey` turns into those of the
  -- wallets' Curve25519 keys, what the `DecryptData` of one, for the other's address, makes of a
  -- message of bytes is what the `EncryptData` of the other, for the first's, turns back into it.
  pub encrypt_data-decrypt_data :
      IsLawful a
      → (base : Bytes) → IsExchange base
      → (w w' : Wallet) (addr addr' : String) (msg : Bytes) (s : a.State) → IsPeer base w addr
      → IsPeer base w' addr'
      → IsBytes msg
      → IfOk (decrypt_data w addr' msg s).0 (λ text. encrypt_data w' addr text ≡ ok msg)
  unfolding encrypt_data decrypt_data
  encrypt_data-decrypt_data L base dh w w' addr addr' msg s p p' bytes =
      elim (Result-cases (key_from_peer_addr c f b w addr')) [
        | inl (key, e) ↦ ground (
          arith,
          e,
          shared base dh w w' addr addr' p p',
          decrypt_by_key-encrypt_by_key a L msg key s bytes,
        )
        | inr bad ↦ ground (arith, bad)
      ]
