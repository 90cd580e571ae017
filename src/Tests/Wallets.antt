-- ===== src/Tests/Wallets.antt =====
-- The theorems on wallets, keys and ciphers at concrete ones, with an AES whose blocks are constant.
use contact_server.Base.{
  ℕ, zero, suc, ◌+◌, ◌%◌, ◌<◌, ◌≡◌, refl, ap, text_dec, true, false, Bool, none, some, [], ◌∷◌,
  ◌++◌, length, eqb, plain, Result, ok, err, panic, IfOk, arith,
}
use contact_server.Common.{ActiveLinkData}
use contact_server.Wallet.Address.{Crypto}
use contact_server.Wallet.Hex.{
  nibble_char, IsBytes, hex_encode, hex_decode, hex_decode_bytes, hex_decode-hex_encode,
}
use contact_server.Wallet.Cipher.{
  Bytes, Aes, IsLawful, unpad, xor_key_stream, encrypt_aes, decrypt_aes, encrypt_by_key,
  decrypt_by_key,
}
use contact_server.Wallet.Cipher.RoundTrip.{decrypt_by_key-encrypt_by_key, decrypt_aes-encrypt_aes}
use contact_server.Wallet.Curve.{ed2_curve_pri_key}
use contact_server.Wallet.Curve.Clamp.{IsClamped, ed2_curve_pri_key-IsClamped}
use contact_server.Wallet.Keys.{
  Wallet, KeyMaker, key_of, key_from_seed, sign_message, sign_with_key, to_wallet, stored_key,
  parse_wallet, open_wallet,
}
use contact_server.Wallet.Keys.Opening.{IsKeyMaker, open_wallet_twice, parse_wallet-to_wallet}
use contact_server.Tests.Requests.{key_bytes, field}

abbrev pub repeat : ℕ → ℕ → Bytes
repeat zero b = []
repeat (suc n) b = b ∷ repeat n b

length-repeat : (n b : ℕ) → length (repeat n b) ≡ n
length-repeat zero b = refl
length-repeat (suc n) b = ground (arith, length-repeat n b)

repeat-IsBytes : (n b : ℕ) → b < 256 → IsBytes (repeat n b)
repeat-IsBytes zero b h = tt
repeat-IsBytes (suc n) b h = (h, repeat-IsBytes n b h)

-- The random source counts its calls, and a key is the same for every password.
abbrev pub aes : Aes
aes = record {
  State = ℕ;
  rand_read = λ n s. (ok (repeat n (s % 256)), s + 1);
  pbkdf2_key = λ password salt iterations key_len. ok key_bytes;
  aes_block = λ key b. repeat 16 7;
}

pub aes-IsLawful : IsLawful aes
aes-IsLawful = record {
  random = λ n s. (length-repeat n (s % 256), repeat-IsBytes n (s % 256) (omega arith));
  blocks = λ key b h. (refl, repeat-IsBytes 16 7 (omega arith));
}

pub hello-IsBytes : IsBytes (104 ∷ 105 ∷ [])
hello-IsBytes = (omega arith, (omega arith, tt))

pub key-IsBytes : IsBytes key_bytes
key-IsBytes = ground arith

decrypt_by_key-encrypt_by_key_example :
    IfOk
      (encrypt_by_key aes (104 ∷ 105 ∷ []) key_bytes 5).0
      (λ text. decrypt_by_key aes text key_bytes ≡ ok (104 ∷ 105 ∷ []))
decrypt_by_key-encrypt_by_key_example =
    decrypt_by_key-encrypt_by_key aes aes-IsLawful (104 ∷ 105 ∷ []) key_bytes 5 hello-IsBytes

decrypt_aes-encrypt_aes_example :
    IfOk
      (encrypt_aes aes (104 ∷ 105 ∷ []) "secret" 5).0
      (λ d. decrypt_aes aes d "secret" ≡ unpad (104 ∷ 105 ∷ []))
decrypt_aes-encrypt_aes_example =
    decrypt_aes-encrypt_aes aes aes-IsLawful (104 ∷ 105 ∷ []) "secret" 5 hello-IsBytes

ed2_curve_pri_key-IsClamped_example :
    (d : Bytes) × (ed2_curve_pri_key field key_bytes ≡ ok d) × IsClamped d
ed2_curve_pri_key-IsClamped_example =
    ed2_curve_pri_key-IsClamped field key_bytes (omega arith) refl (ground arith)

-- A key is the same for every seed, a signature is one byte, and base58 is hex here.
abbrev pub decoded : Result Bytes → Bytes
decoded (ok b) = b
decoded (err e) = []
decoded (panic w) = []

abbrev pub a_crypto : Crypto
a_crypto = record {
  base58_decode = λ s. decoded (hex_decode s);
  verifies = λ key message sig. eqb (length sig) 1;
}

abbrev pub maker : Result Wallet → KeyMaker
maker read = record {
  new_key = λ seed. key_bytes ++ key_bytes;
  base58_encode = hex_encode;
  eth_address_of = λ seed. "0xAB";
  to_lower = λ s. s;
  sign = λ key m. 9 ∷ [];
  unmarshal_wallet = λ s. read;
}

abbrev pub a_maker : KeyMaker
a_maker = maker (err (plain "no wallet"))

pub maker-IsKeyMaker : IsKeyMaker a_crypto a_maker
maker-IsKeyMaker = record {
  base58 = λ b h. ap decoded (hex_decode-hex_encode b h);
  keys = λ seed h. (refl, ground arith);
  accepts = λ seed m h. refl;
  sign-IsBytes = λ key m. (omega arith, tt);
}

-- The wallet of a seed, as it is stored.
abbrev pub stored : Result Wallet
stored = (to_wallet a_maker aes (key_of a_maker key_bytes) "secret" 5).0

abbrev pub the_wallet : Wallet
the_wallet = elim stored [
  | ok w ↦ w
  | err e ↦ record { address = none; cipher_data = none; version = 0; key = none }
  | panic w ↦ record { address = none; cipher_data = none; version = 0; key = none }
]

pub is_stored : stored ≡ ok the_wallet
unfolding to_wallet encrypt_aes xor_key_stream hex_encode
is_stored = refl

parse_wallet-to_wallet_example :
    parse_wallet (maker stored) aes "{}" "secret"
    ≡ ok (record the_wallet { key = some (key_of (maker stored) key_bytes) })
unfolding to_wallet
parse_wallet-to_wallet_example =
    parse_wallet-to_wallet (maker stored) aes aes-IsLawful key_bytes "secret" 5 the_wallet "{}"
      key-IsBytes refl is_stored is_stored

-- The wallet of another address than its seed's.
abbrev foreign : Wallet
foreign = record the_wallet {
  address = some (record { bmail_address = "BM1"; eth_address = "0xAB" });
}

abbrev refused : Result Bool × Wallet
refused = open_wallet a_maker aes "secret" foreign

open_wallet_twice_example :
    ((open_wallet a_maker aes "other" refused.1).0 ≡ ok true)
    × (sign_message a_maker refused.1 [] ≡ ok (sign_with_key a_maker (key_of a_maker key_bytes) []))
unfolding to_wallet encrypt_aes decrypt_aes unpad xor_key_stream hex_encode hex_decode
    hex_decode_bytes stored_key open_wallet key_from_seed nibble_char text_dec
open_wallet_twice_example =
    open_wallet_twice a_maker aes foreign (key_of a_maker key_bytes) "secret" "other" [] refl refl
      refl

-- An open wallet.
abbrev pub opened : Wallet
opened = record {
  address = some (key_of a_maker key_bytes).address;
  cipher_data = none;
  version = 1;
  key = some (key_of a_maker key_bytes);
}

abbrev pub a_link : ActiveLinkData
a_link = record {
  token = "t1";
  email = "a@x";
  address = "BM1";
  create_time = 100;
  is_unbind = false;
}
