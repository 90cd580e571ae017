-- ===== src/Wallet/Cipher.antt =====
-- wallet/crypto.go: texts under a password or a key. AES in CFB mode is written out over AES's block
-- function; that function, PBKDF2 and the random source are the parameter `Aes`. A text is its bytes.
pub mod Streams
pub mod RoundTrip
use contact_server.Base.{
  ℕ, ◌+◌, ◌-◌, ◌<◌, ◌≤◌, ◌≡◌, String, ◌<>◌, decimal, Bool, true, false, ◌||◌, ◌&&◌, List, [], ◌∷◌,
  ◌++◌, length, ℤ, pos, quotient, bit_xor, eqb, ltb, leb, if◌then◌else◌, plain, Result, ok, err,
  panic, Exec, pure, lift, ◌>>=◌, IfOk,
}
use contact_server.Wallet.Hex.{IsBytes, hex_encode, hex_decode}
use contact_server.Wallet.Address.{◌>>=ᵣ◌}

abbrev pub Bytes : Type 0
Bytes = List ℕ

-- `aes_block key` is the permutation of a block by AES under a key of an allowed length.
pub record Aes : Type 1 where
  pub State : Type 0
  pub rand_read : ℕ → Exec State Bytes
  pub pbkdf2_key : String → Bytes → ℤ → ℤ → Result Bytes
  pub aes_block : Bytes → Bytes → Bytes

abbrev pub block_size : ℕ
block_size = 16

pub record IsLawful (a : Aes) : Type 0 where
  pub random : (n : ℕ) (s : a.State) → IfOk (a.rand_read n s).0 (λ b. (length b ≡ n) × IsBytes b)
  pub blocks :
      (key b : Bytes)
      → length b ≡ block_size
      → (length (a.aes_block key b) ≡ block_size) × IsBytes (a.aes_block key b)

abbrev pub crypto_key_len : ℕ
crypto_key_len = 32

abbrev pub scrypt_n : ℕ
scrypt_n = 1024

pub record CipherData : Type 0 where
  pub cipher_txt : String
  pub iv : String
  pub salt : String
  pub key_size : ℤ
  pub iterations : ℤ

abbrev pub Block : Type 0
Block = Bytes → Bytes

-- What is left of the key stream, and what the register has taken since it was made. At the end of
-- a block the register is full and the next block of the stream is made from it.
abbrev pub stream_left : Block → Bytes → Bytes → Bytes
stream_left block [] register = block register
stream_left block (o ∷ out) register = o ∷ out

abbrev pub register_left : Bytes → Bytes → Bytes
register_left [] register = []
register_left (o ∷ out) register = register

-- `XORKeyStream` of a CFB stream, byte by byte: the register takes the bytes of the cipher text,
-- which are the output of an encrypter and the input of a decrypter.
unfoldable pub xor_key_stream : Bool → Block → Bytes → Bytes → Bytes → Bytes
xor_key_stream decrypts block out register [] = []
xor_key_stream decrypts block out register (x ∷ src) = elim (stream_left block out register) [
  | [] ↦ []
  | o ∷ rest ↦
      let y = bit_xor x o in
      let taken = register_left out register ++ ((if decrypts then x else y) ∷ []) in
      y ∷ xor_key_stream decrypts block rest taken src
]

-- `cipher.NewCFBEncrypter` or `NewCFBDecrypter` with its `XORKeyStream`.
abbrev pub cfb : Bool → Block → Bytes → Bytes → Result Bytes
cfb decrypts block iv src =
    if eqb (length iv) block_size
    then ok (xor_key_stream decrypts block [] iv src)
    else panic "cipher.NewCFB: IV length must equal block size"

-- `plainText[len(plainText)-1]`
abbrev pub last_byte : Bytes → Result ℕ
last_byte [] = panic "runtime error: index out of range [-1]"
last_byte (b ∷ []) = ok b
last_byte (b ∷ c ∷ bs) = last_byte (c ∷ bs)

abbrev pub take : ℕ → Bytes → Bytes
take n [] = []
take n (b ∷ bs) = if ltb 0 n then b ∷ take (n - 1) bs else []

abbrev pub drop : ℕ → Bytes → Bytes
drop n [] = []
drop n (b ∷ bs) = if ltb 0 n then drop (n - 1) bs else b ∷ bs

-- The last lines of `DecryptAes`, which take a last byte of 1 to 16 for the length of a padding.
unfoldable pub unpad : Bytes → Result Bytes
unpad text = last_byte text >>=ᵣ λ padding_len.
    if ltb 0 padding_len && leb padding_len block_size
    then (if leb padding_len (length text)
        then ok (take (length text - padding_len) text)
        else panic "runtime error: slice bounds out of range")
    else ok text

module _ (a : Aes) where
  -- `aes.NewCipher`
  abbrev pub new_cipher : Bytes → Result Block
  new_cipher key =
      if eqb (length key) 16 || eqb (length key) 24 || eqb (length key) 32
      then ok (a.aes_block key)
      else err (plain ("crypto/aes: invalid key size " <> decimal (length key)))

  unfoldable pub encrypt_aes : Bytes → String → Exec a.State CipherData
  unfolding xor_key_stream
  encrypt_aes plain_txt password = do
    salt ← a.rand_read 16
    key ← lift (a.pbkdf2_key password salt (pos scrypt_n) (pos crypto_key_len))
    iv ← a.rand_read block_size
    block ← lift (new_cipher key)
    cipher_text ← lift (cfb false block iv plain_txt)
    pure (record {
      cipher_txt = hex_encode cipher_text;
      iv = hex_encode iv;
      salt = hex_encode salt;
      key_size = pos 8;
      iterations = pos scrypt_n;
    })

  unfoldable pub decrypt_aes : CipherData → String → Result Bytes
  unfolding xor_key_stream unpad
  decrypt_aes data_in password = hex_decode data_in.salt >>=ᵣ λ salt.
      quotient 256 data_in.key_size >>=ᵣ λ key_len.
      a.pbkdf2_key password salt data_in.iterations key_len >>=ᵣ λ key.
      hex_decode data_in.iv >>=ᵣ λ iv. hex_decode data_in.cipher_txt >>=ᵣ λ cipher_text.
      new_cipher key >>=ᵣ λ block. cfb true block iv cipher_text >>=ᵣ unpad

  unfoldable pub encrypt_by_key : Bytes → Bytes → Exec a.State String
  unfolding xor_key_stream
  encrypt_by_key plain_txt key = do
    iv ← a.rand_read block_size
    block ← lift (new_cipher key)
    cipher_text ← lift (cfb false block iv plain_txt)
    pure (hex_encode (iv ++ cipher_text))

  unfoldable pub decrypt_by_key : String → Bytes → Result Bytes
  unfolding xor_key_stream
  decrypt_by_key text key = hex_decode text >>=ᵣ λ cipher_text.
      if ltb (length cipher_text) block_size
      then err (plain "cipher text too short")
      else new_cipher key >>=ᵣ λ block.
          cfb true block (take block_size cipher_text) (drop block_size cipher_text)
