-- ===== src/Wallet/Cipher/RoundTrip.antt =====
-- What is encrypted under a password or a key is decrypted under it.
use Prim.Native.Char.{code}
use contact_server.Base.{
  ℕ, ◌/◌, ◌%◌, ◌<◌, ◌≡◌, refl, String, false, [], ◌∷◌, ◌++◌, length, length-append, Result, ok,
  IfOk, pos, arith, Result-cases, inl, inr,
}
use contact_server.Wallet.Hex.{
  IsBytes, hex_encode, hex_decode-hex_encode, text_bytes, nibble_char, nibble_digit,
}
use contact_server.Wallet.Cipher.{
  Bytes, Aes, IsLawful, block_size, scrypt_n, crypto_key_len, xor_key_stream, take, drop, unpad,
  last_byte, encrypt_aes, decrypt_aes, encrypt_by_key, decrypt_by_key,
}
use contact_server.Wallet.Cipher.Streams.{xor_key_stream-twice, xor_key_stream-IsBytes}

take-append : (xs ys : Bytes) → take (length xs) (xs ++ ys) ≡ xs
take-append [] [] = refl
take-append [] (y ∷ ys) = refl
take-append (x ∷ xs) ys = ground (arith, take-append xs ys)

drop-append : (xs ys : Bytes) → drop (length xs) (xs ++ ys) ≡ ys
drop-append [] [] = refl
drop-append [] (y ∷ ys) = refl
drop-append (x ∷ xs) ys = ground (arith, drop-append xs ys)

IsBytes-append : (xs ys : Bytes) → IsBytes xs → IsBytes ys → IsBytes (xs ++ ys)
IsBytes-append [] ys p q = q
IsBytes-append (x ∷ xs) ys (lt, p) q = (lt, IsBytes-append xs ys p q)

module _ (a : Aes) (L : IsLawful a) (plain_txt key : Bytes) (s : a.State) where
  -- With a lawful AES and random source, what `EncryptByKey` made of bytes is what `DecryptByKey`
  -- takes back under the same key.
  pub decrypt_by_key-encrypt_by_key :
      IsBytes plain_txt
      → IfOk (encrypt_by_key a plain_txt key s).0 (λ text. decrypt_by_key a text key ≡ ok plain_txt)
  unfolding encrypt_by_key decrypt_by_key
  decrypt_by_key-encrypt_by_key bytes = elim (Result-cases (a.rand_read block_size s).0) [
    | inl (iv, e) ↦
        let c = xor_key_stream false (a.aes_block key) [] iv plain_txt in
        ground (
          arith,
          e,
          L.random block_size s,
          take-append iv c,
          drop-append iv c,
          length-append iv c,
          hex_decode-hex_encode (iv ++ c),
          IsBytes-append iv c,
          xor_key_stream-twice a L key iv plain_txt,
          xor_key_stream-IsBytes a L key false iv plain_txt,
          bytes,
        )
    | inr bad ↦ ground (arith, bad)
  ]

module _ (a : Aes) (L : IsLawful a) (plain_txt : Bytes) (password : String) (s : a.State) where
  abbrev salted : Result Bytes × a.State
  salted = a.rand_read block_size s

  -- With a lawful AES and random source, `DecryptAes` under the password of `EncryptAes` does with
  -- the bytes of the plain text what its last lines do: they come back, less a padding where the
  -- last of them is taken for the length of one, and the empty text panics.
  pub decrypt_aes-encrypt_aes :
      IsBytes plain_txt
      → IfOk
          (encrypt_aes a plain_txt password s).0
          (λ d. decrypt_aes a d password ≡ unpad plain_txt)
  unfolding encrypt_aes decrypt_aes
  decrypt_aes-encrypt_aes bytes = elim (Result-cases salted.0) [
    | inl (salt, e) ↦
        elim (Result-cases (a.pbkdf2_key password salt (pos scrypt_n) (pos crypto_key_len))) [
          | inl (key, d) ↦ elim (Result-cases (a.rand_read block_size salted.1).0) [
            | inl (iv, f) ↦ ground (
              arith,
              e,
              d,
              f,
              L.random block_size s,
              L.random block_size salted.1,
              hex_decode-hex_encode salt,
              hex_decode-hex_encode iv,
              hex_decode-hex_encode (xor_key_stream false (a.aes_block key) [] iv plain_txt),
              xor_key_stream-twice a L key iv plain_txt,
              xor_key_stream-IsBytes a L key false iv plain_txt,
              bytes,
            )
            | inr bad ↦ ground (arith, e, d, bad)
          ]
          | inr bad ↦ ground (arith, e, bad)
        ]
    | inr bad ↦ ground (arith, bad)
  ]

last_byte_hex :
    (b : ℕ) (bs : Bytes)
    → IsBytes (b ∷ bs)
    → IfOk (last_byte (text_bytes (hex_encode (b ∷ bs)))) (λ c. 16 < c)
unfolding hex_encode
last_byte_hex b [] (lt, h) = (nibble_digit (b % 16) (omega arith)).1
last_byte_hex b (c ∷ bs) (lt, h) = last_byte_hex c bs h

has_last : (b : ℕ) (bs : Bytes) → (c : ℕ) × (last_byte (b ∷ bs) ≡ ok c)
has_last b [] = (b, refl)
has_last b (c ∷ bs) = has_last c bs

unpad_kept :
    (b : ℕ) (bs : Bytes) → IfOk (last_byte (b ∷ bs)) (λ c. 16 < c) → unpad (b ∷ bs) ≡ ok (b ∷ bs)
unfolding unpad
unpad_kept b bs h = let (c, e) = has_last b bs in ground (arith, e, h)

-- The hex text that the wallet encrypts, of at least one byte, has no padding.
pub unpad-hex_encode :
    (b : ℕ) (bs : Bytes)
    → IsBytes (b ∷ bs)
    → unpad (text_bytes (hex_encode (b ∷ bs))) ≡ ok (text_bytes (hex_encode (b ∷ bs)))
unfolding hex_encode
unpad-hex_encode b bs h =
    unpad_kept (code (nibble_char (b / 16)))
      (code (nibble_char (b % 16)) ∷ text_bytes (hex_encode bs)) (last_byte_hex b bs h)
