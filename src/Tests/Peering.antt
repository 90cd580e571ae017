-- ===== src/Tests/Peering.antt =====
-- Two open wallets of wallet/wallet.go with different keys, under a key exchange that adds.
use contact_server.Base.{
  ℕ, ◌+◌, ◌≡◌, refl, none, some, [], ◌∷◌, ◌++◌, ok, IfOk, text_dec, strip_prefix, arith,
}
use contact_server.Wallet.Hex.{nibble_char, hex_decode, hex_decode_bytes}
use contact_server.Wallet.Address.{decode_pub_key}
use contact_server.Wallet.Cipher.{Bytes}
use contact_server.Wallet.Curve.{Field, fit, clamp, ed2_curve_pri_key, ed2_curve_pub_key}
use contact_server.Wallet.Keys.{Wallet, MailKey}
use contact_server.Wallet.Admin.{Boxes}
use contact_server.Wallet.Peers.{
  encrypt_data, decrypt_data, IsExchange, IsPeer, encrypt_data-decrypt_data,
}
use contact_server.Tests.Requests.{boxes}
use contact_server.Tests.Wallets.{repeat, aes, aes-IsLawful, hello-IsBytes, a_crypto}

abbrev first : Bytes → ℕ
first [] = 0
first (b ∷ bs) = b

abbrev padded : ℕ → Bytes
padded b = b ∷ repeat 31 0

-- A public key is the private key plus the base point, and a shared secret the sum of the two
-- private keys and the base point.
abbrev exchange : Boxes
exchange = record boxes { x25519 = λ a b. ok (padded (first a + first b)) }

abbrev bytes_field : Field
bytes_field = record {
  Fe = Bytes;
  fe_one = [];
  fe_add = λ x y. y;
  fe_sub = λ x y. y;
  fe_mul = λ x y. x;
  fe_invert = λ x. x;
  fe_to_bytes = λ x. padded (first x);
  from_bytes_y = λ b. some b;
  sha512 = λ b. b;
}

exchange-IsExchange : IsExchange a_crypto bytes_field exchange aes (padded 9)
exchange-IsExchange pri pri' pub_key pub_key' h h' = ground (arith, h, h')

abbrev peer_key : ℕ → MailKey
peer_key b = record {
  pri_raw = padded b;
  address = record { bmail_address = ""; eth_address = "" };
  pri_key = padded b;
}

abbrev peer : ℕ → Wallet
peer b = record { address = none; cipher_data = none; version = 1; key = some (peer_key b) }

sender : IsPeer a_crypto bytes_field exchange aes (padded 9) (peer 8) "BM11"
unfolding ed2_curve_pri_key clamp fit decode_pub_key strip_prefix hex_decode hex_decode_bytes
    nibble_char ed2_curve_pub_key text_dec
sender = record {
  key = peer_key 8;
  is_open = refl;
  pri = 8 ∷ (repeat 30 0 ++ (64 ∷ []));
  to_pri = refl;
  ed_pub = 17 ∷ [];
  to_pub = refl;
  matches = refl;
}

receiver : IsPeer a_crypto bytes_field exchange aes (padded 9) (peer 16) "BM19"
unfolding ed2_curve_pri_key clamp fit decode_pub_key strip_prefix hex_decode hex_decode_bytes
    nibble_char ed2_curve_pub_key text_dec
receiver = record {
  key = peer_key 16;
  is_open = refl;
  pri = 16 ∷ (repeat 30 0 ++ (64 ∷ []));
  to_pri = refl;
  ed_pub = 25 ∷ [];
  to_pub = refl;
  matches = refl;
}

encrypt_data-decrypt_data_example :
    IfOk
      (decrypt_data a_crypto bytes_field exchange aes (peer 8) "BM19" (104 ∷ 105 ∷ []) 5).0
      (λ text.
        encrypt_data a_crypto bytes_field exchange aes (peer 16) "BM11" text ≡ ok (104 ∷ 105 ∷ []))
encrypt_data-decrypt_data_example =
    encrypt_data-decrypt_data a_crypto bytes_field exchange aes aes-IsLawful (padded 9)
      exchange-IsExchange (peer 8) (peer 16) "BM11" "BM19" (104 ∷ 105 ∷ []) 5 sender receiver
      hello-IsBytes
