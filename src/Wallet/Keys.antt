-- ===== src/Wallet/Keys.antt =====
-- Keys and wallets of wallet/wallet.go: made from a seed, encrypted under a password, opened again.
-- Ed25519's keys, base58, Ethereum's address of a seed, JSON and `strings.ToLower` are the parameter
-- `KeyMaker`. The Ethereum key that a key also holds is read by no code.
pub mod Opening
use contact_server.Base.{
  ℕ, String, ◌<>◌, decimal, Bool, true, false, ◌&&◌, ◌==◌, List, [], Option, none, some, plain,
  error_text, Result, ok, err, panic, Exec, pure, lift, branch, ◌>>=◌, length, eqb, if◌then◌else◌,
}
use contact_server.Wallet.Hex.{hex_encode, hex_decode_bytes, text_bytes}
use contact_server.Wallet.Address.{◌>>=ᵣ◌}
use contact_server.Wallet.Cipher.{Bytes, Aes, CipherData, drop, encrypt_aes, decrypt_aes}

pub record MailAddr : Type 0 where
  pub bmail_address : String
  pub eth_address : String

pub record MailKey : Type 0 where
  pub pri_raw : Bytes
  pub address : MailAddr
  pub pri_key : Bytes

-- `address` and `cipher_data` are pointers, nil where the JSON text has no such field.
pub record Wallet : Type 0 where
  pub address : Option MailAddr
  pub cipher_data : Option CipherData
  pub version : ℕ
  pub key : Option MailKey

-- `new_key` is the private key of 64 bytes, of which the last 32 are the public key.
pub record KeyMaker : Type 0 where
  pub new_key : Bytes → Bytes
  pub base58_encode : Bytes → String
  pub eth_address_of : Bytes → String
  pub to_lower : String → String
  pub sign : Bytes → Bytes → Bytes
  pub unmarshal_wallet : String → Result Wallet

abbrev pub bmail_prefix : String
bmail_prefix = "BM"

abbrev nil_pointer : {A : Type 0} → Result A
nil_pointer = panic "runtime error: invalid memory address or nil pointer dereference"

-- What a pointer points to.
abbrev pub pointed : {A : Type 0} → Option A → Result A
pointed none = nil_pointer
pointed (some x) = ok x

module _ (k : KeyMaker) where
  -- `Equal`, where the second address is not nil.
  abbrev pub equal : MailAddr → MailAddr → Bool
  equal ma ma2 =
      ma.bmail_address == ma2.bmail_address
      && k.to_lower ma.eth_address == k.to_lower ma2.eth_address

  abbrev pub key_of : Bytes → MailKey
  key_of seed = record {
    pri_raw = seed;
    address = record {
      bmail_address = bmail_prefix <> k.base58_encode (drop 32 (k.new_key seed));
      eth_address = k.eth_address_of seed;
    };
    pri_key = k.new_key seed;
  }

  -- `NewMailKeyFromSeed` and `keyFromSeed`; Ed25519 refuses a seed of another length.
  unfoldable pub key_from_seed : Bytes → Result MailKey
  key_from_seed seed =
      if eqb (length seed) 32
      then ok (key_of seed)
      else panic ("ed25519: bad seed length: " <> decimal (length seed))

  -- `SignMessage` of a key and of a wallet.
  unfoldable pub sign_with_key : MailKey → Bytes → String
  sign_with_key mk msg = hex_encode (k.sign mk.pri_key msg)

  unfoldable pub sign_message : Wallet → Bytes → Result String
  unfolding sign_with_key
  sign_message w msg = elim w.key [
    | none ↦ err (plain "open wallet first")
    | some mk ↦ ok (sign_with_key mk msg)
  ]

module _ (k : KeyMaker) (a : Aes) where
  -- `NewMailKey`: a random source that fails ends the process.
  unfoldable pub new_mail_key : Exec a.State MailKey
  unfolding key_from_seed
  new_mail_key =
      branch (a.rand_read 32) (λ seed. lift (key_from_seed k seed))
        (λ e. lift (panic (error_text e)))

  unfoldable pub to_wallet : MailKey → String → Exec a.State Wallet
  to_wallet mk pwd = do
    cipher ← encrypt_aes a (text_bytes (hex_encode mk.pri_raw)) pwd
    pure (record { address = some mk.address; cipher_data = some cipher; version = 1; key = none })

  -- The key that the encrypted seed of a wallet makes, as `ParseWallet` and `OpenWallet` find it.
  unfoldable pub stored_key : Wallet → String → Result MailKey
  unfolding key_from_seed
  stored_key w pwd = pointed w.cipher_data >>=ᵣ λ cipher. decrypt_aes a cipher pwd >>=ᵣ λ seed_hex.
      hex_decode_bytes seed_hex >>=ᵣ λ seed. key_from_seed k seed

  abbrev same_address : Wallet → MailKey → Result Bool
  same_address w mk = pointed w.address >>=ᵣ λ address. ok (equal k address mk.address)

  -- `LoadWallet` and `ParseWallet`.
  unfoldable pub parse_wallet : String → String → Result Wallet
  unfolding stored_key
  parse_wallet json pwd = k.unmarshal_wallet json >>=ᵣ λ w. stored_key w pwd >>=ᵣ λ mk.
      same_address w mk >>=ᵣ λ same.
      if same then ok (record w { key = some mk }) else err (plain "address invalid")

  -- `OpenWallet`: the verdict, and the wallet that it leaves.
  unfoldable pub open_wallet : String → Exec Wallet Bool
  unfolding stored_key
  open_wallet pwd w = elim w.key [
    | some mk ↦ (ok true, w)
    | none ↦ elim (stored_key w pwd) [
      | ok mk ↦ (same_address w mk, record w { key = some mk })
      | err e ↦ (ok false, w)
      | panic m ↦ (panic m, w)
    ]
  ]
