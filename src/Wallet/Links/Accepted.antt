-- ===== src/Wallet/Links/Accepted.antt =====
-- A link that the server signed is accepted while it is fresh.
use contact_server.Base.{
  ℕ, ◌+◌, ◌-◌, ◌≡◌, strip_prefix-append, zero, suc, [], ◌∷◌, some, length, plain, ok, err, arith,
  String, Bool, Option, Result, refl, replace_all, ltb, if◌then◌else◌,
}
use contact_server.Common.{ActiveLinkData}
use contact_server.Wallet.Hex.{IsBytes, hex_decode-hex_encode}
use contact_server.Wallet.Address.{Crypto, decode_pub_key, verify_message, bmail_addr_prefix}
use contact_server.Wallet.Cipher.{Bytes, drop}
use contact_server.Wallet.Keys.{Wallet, KeyMaker, key_of, sign_message, sign_with_key}
use contact_server.Wallet.Keys.Opening.{IsKeyMaker}
use contact_server.Wallet.Links.{
  WConf, Smtp, send_twice, send_active_mail, link_text, verify_activation_link, token_expiration,
}

abbrev pub accepted_for_a_day : ℕ → ActiveLinkData → Result (Unit {0})
accepted_for_a_day now link =
    if ltb (link.create_time + token_expiration) now
    then err (plain "activation link has expired")
    else ok tt

dropped : (n : ℕ) (bs : Bytes) → length bs ≡ n + 32 → length (drop n bs) ≡ 32
dropped zero [] h = omega (arith, h)
dropped zero (b ∷ bs) h = ground (arith, h)
dropped (suc n) [] h = absurd (omega (arith, h))
dropped (suc n) (b ∷ bs) h = ground (arith, h, dropped n bs)

IsBytes-drop : (n : ℕ) (bs : Bytes) → IsBytes bs → IsBytes (drop n bs)
IsBytes-drop n [] h = tt
IsBytes-drop n (b ∷ bs) h = ground (arith, h, IsBytes-drop (n - 1) bs)

module _ (c : Crypto) (k : KeyMaker) (K : IsKeyMaker c k) (seed : Bytes)
    (size : length seed ≡ 32) where
  public_key_length : length (drop 32 (k.new_key seed)) ≡ 32
  public_key_length = dropped 32 (k.new_key seed) ((K.keys seed size).0)

  -- `VerifyMessage` accepts at a key's address what the key signed.
  verify_message-sign_with_key :
      (m : Bytes)
      → verify_message c (key_of k seed).address.bmail_address (sign_with_key k (key_of k seed) m) m
        ≡ ok tt
  unfolding verify_message sign_with_key decode_pub_key
  verify_message-sign_with_key m = ground (
    arith,
    strip_prefix-append bmail_addr_prefix (k.base58_encode (drop 32 (k.new_key seed))),
    K.base58 (drop 32 (k.new_key seed)) (IsBytes-drop 32 (k.new_key seed) ((K.keys seed size).1)),
    public_key_length,
    hex_decode-hex_encode (k.sign (k.new_key seed) m) (K.sign-IsBytes (k.new_key seed) m),
    K.accepts seed m size,
  )

  pub verify_activation_link-sign_message :
      (w : Wallet) (sig_data : ActiveLinkData → Bytes) (link : ActiveLinkData)
      → w.key ≡ some (key_of k seed)
      → w.address ≡ some (key_of k seed).address
      → let signature = sign_with_key k (key_of k seed) (sig_data link) in
        (sign_message k w (sig_data link) ≡ ok signature)
        × ((now : ℕ)
            → verify_activation_link c w sig_data now link signature ≡ accepted_for_a_day now link)
  unfolding verify_activation_link sign_message
  verify_activation_link-sign_message w sig_data link open_key address = (
    ground (arith, open_key),
    λ now. ground (arith, address, verify_message-sign_with_key (sig_data link)),
  )

  -- With lawful parameters, an open wallet at the address of its key makes `SendActiveMail` send, at
  -- most twice, one mail to the link's email, in whose text the mark is replaced by the page's address
  -- with the link's token and the key's signature. `VerifyActivationLink` accepts that signature for
  -- that link as long as the link is at most a day old, and for no longer.
  pub send_active_mail_accepted :
      (m : Smtp) (w : Wallet) (sig_data : ActiveLinkData → Bytes) (conf : Option WConf)
      (link : ActiveLinkData) (subject body : String) (is_unbind : Bool)
      → w.key ≡ some (key_of k seed)
      → w.address ≡ some (key_of k seed).address
      → let signature = sign_with_key k (key_of k seed) (sig_data link) in
        (send_active_mail m k w sig_data conf link subject body is_unbind
          ≡ send_twice m conf link.email subject
              (replace_all body "__active_link__" (link_text link.token signature is_unbind)))
        × ((now : ℕ)
            → verify_activation_link c w sig_data now link signature ≡ accepted_for_a_day now link)
  unfolding send_active_mail
  send_active_mail_accepted m w sig_data conf link subject body is_unbind open_key address =
      let (signed, accepted) =
        verify_activation_link-sign_message w sig_data link open_key address in
      (rw signed refl, accepted)
