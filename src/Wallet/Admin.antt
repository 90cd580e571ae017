-- ===== src/Wallet/Admin.antt =====
-- `KeyFromPeerAddr` of wallet/wallet.go, and `DecryptAdminAesKey` of wallet/wallet_inst.go. X25519,
-- NaCl's secretbox, base64 and JSON are the parameter `Boxes`.
pub mod Matched
use contact_server.Base.{
  ℕ, String, Bool, false, ◌||◌, List, [], ◌∷◌, Option, none, some, Dict, find, plain, joined,
  Result, ok, err, panic, if◌then◌else◌,
}
use contact_server.Wallet.Hex.{hex_decode}
use contact_server.Wallet.Curve.{Field, fit, ed2_curve_pri_key, ed2_curve_pub_key}
use contact_server.Wallet.Keys.{Wallet}
use contact_server.Wallet.Address.{Crypto, decode_pub_key, ◌>>=ᵣ◌}

pub record Boxes : Type 0 where
  pub x25519 : List ℕ → List ℕ → Result (List ℕ)
  pub open_box : List ℕ → List ℕ → List ℕ → Option (List ℕ)
  pub seal_box : List ℕ → List ℕ → List ℕ → List ℕ
  pub base64_decode : String → Result (List ℕ)
  pub unmarshal_strings : List ℕ → Result (List String)

-- `errors.Join(err, fmt.Errorf(text))` on the way out.
abbrev pub or_join : {A : Type 0} → String → Result A → Result A
or_join text (ok a) = ok a
or_join text (err e) = err (joined e text)
or_join text (panic w) = panic w

-- `bindEmail[s]` of a map: false for what is not in it.
abbrev flag : Option Bool → Bool
flag none = false
flag (some b) = b

unfoldable pub is_match : List String → Dict Bool → Bool
is_match [] bound = false
is_match (s ∷ rest) bound = flag (find bound s) || is_match rest bound

module _ (c : Crypto) (f : Field) (b : Boxes) (w : Wallet) where
  unfoldable pub key_from_peer_addr : String → Result (List ℕ)
  unfolding decode_pub_key
  key_from_peer_addr addr = elim w.key [
    | none ↦ err (plain "open wallet first")
    | some key ↦ decode_pub_key c addr >>=ᵣ λ peer_pub.
        ed2_curve_pri_key f key.pri_key >>=ᵣ λ cur_pri.
        b.x25519 cur_pri (ed2_curve_pub_key f peer_pub)
  ]

  unfoldable pub encrypt_data : List ℕ → List ℕ → List ℕ → List ℕ
  unfolding fit
  encrypt_data aes_key nonce shared_key = b.seal_box aes_key (fit 24 nonce) (fit 32 shared_key)

  unfoldable pub decrypt_data : List ℕ → List ℕ → List ℕ → Result (List ℕ)
  unfolding fit
  decrypt_data encrypted nonce shared_key =
      elim (b.open_box encrypted (fit 24 nonce) (fit 32 shared_key)) [
        | none ↦ err (plain "decryption failed")
        | some decrypted ↦ ok decrypted
      ]

  abbrev require_match : Bool → Result (Unit {0})
  require_match found = if found then ok tt else err (plain "bind your email to BMail first please")

  unfoldable pub decrypt_admin_aes_key :
      (sender third_addr nonce aes_key mail_receiver : String) → Dict Bool → Result (List ℕ)
  decrypt_admin_aes_key sender third_addr nonce aes_key mail_receiver bind_email =
      or_join "decode noce failed" (hex_decode nonce) >>=ᵣ λ none_bts.
      or_join "shared key between admin and sender failed" (key_from_peer_addr sender)
      >>=ᵣ λ shared_sender.
          or_join "decode admin aes key failed" (hex_decode aes_key) >>=ᵣ λ aes_bts.
          or_join "decrypt admin aes key failed" (decrypt_data aes_bts none_bts shared_sender)
          >>=ᵣ λ aes.
              or_join "decode mail receivers failed" (b.base64_decode mail_receiver)
              >>=ᵣ λ receivers.
                  or_join "decrypt mail receivers failed" (decrypt_data receivers none_bts aes)
                  >>=ᵣ λ plain_receivers.
                      or_join "unwrap mail list in mail body failed"
                        (b.unmarshal_strings plain_receivers)
                      >>=ᵣ λ mail_list. require_match (is_match mail_list bind_email) >>=ᵣ λ _.
                          or_join "shared key between admin and receiver failed"
                            (key_from_peer_addr third_addr)
                          >>=ᵣ λ shared_third. ok (encrypt_data aes none_bts shared_third)
