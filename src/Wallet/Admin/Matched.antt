-- ===== src/Wallet/Admin/Matched.antt =====
-- What `DecryptAdminAesKey` of wallet/wallet_inst.go has checked where it returns a key.
use contact_server.Base.{
  ℕ, String, ◌≡◌, refl, Bool, true, false, List, [], ◌∷◌, some, Option-cases, Dict, find, has,
  Result, ok, err, plain, panic, inl, inr, arith, if◌then◌else◌,
}
use contact_server.Wallet.Hex.{hex_decode}
use contact_server.Wallet.Curve.{Field}
use contact_server.Wallet.Keys.{Wallet}
use contact_server.Wallet.Address.{Crypto, ◌>>=ᵣ◌}
use contact_server.Wallet.Admin.{
  Boxes, or_join, is_match, key_from_peer_addr, decrypt_data, encrypt_data, decrypt_admin_aes_key,
}

-- A chain that returned a value: so did its first call.
bind_ok :
    {A B : Type 0} (r : Result A) (f : A → Result B) (b : B)
    → (r >>=ᵣ f) ≡ ok b
    → (a : A) × (r ≡ ok a) × (f a ≡ ok b)
bind_ok (ok a) f b h = (a, refl, h)
bind_ok (err e) f b h = absurd (ground (arith, h))
bind_ok (panic w) f b h = absurd (ground (arith, h))

join_ok : {A : Type 0} (text : String) (r : Result A) (a : A) → or_join text r ≡ ok a → r ≡ ok a
join_ok text (ok b) a h = h
join_ok text (err e) a h = absurd (ground (arith, h))
join_ok text (panic w) a h = absurd (ground (arith, h))

is_match_found :
    (l : List String) (bound : Dict Bool)
    → is_match l bound ≡ true
    → (e : String) × (has l e ≡ true) × (find bound e ≡ some true)
unfolding is_match
is_match_found [] bound h = absurd (ground (arith, h))
is_match_found (s ∷ rest) bound h = elim (Option-cases (find bound s)) [
  | inl missing ↦
      let (e, listed, found) = is_match_found rest bound (ground (arith, h, missing)) in
      (e, ground (arith, listed), found)
  | inr (true, found) ↦ (s, ground arith, found)
  | inr (false, found) ↦
      let (e, listed, found') = is_match_found rest bound (ground (arith, h, found)) in
      (e, ground (arith, listed), found')
]

module _ (c : Crypto) (f : Field) (b : Boxes) (w : Wallet) where
  module _ (sender third_addr nonce aes_key mail_receiver : String) (bound : Dict Bool)
      (key : List ℕ) where
    -- The key is that of a mail to `list`, of which `e` is bound, under the key that the server
    -- shares with the receiver.
    pub record IsFor (e : String) (list : List String)
        (nonce_bts aes shared_sender shared_third : List ℕ) : Type 0 where
      pub nonce_read : hex_decode nonce ≡ ok nonce_bts
      pub sender_shared : key_from_peer_addr c f b w sender ≡ ok shared_sender
      pub opened :
          (hex_decode aes_key >>=ᵣ λ aes_bts. decrypt_data c f b w aes_bts nonce_bts shared_sender)
          ≡ ok aes
      pub listed :
          (b.base64_decode mail_receiver >>=ᵣ λ receivers.
          decrypt_data c f b w receivers nonce_bts aes >>=ᵣ b.unmarshal_strings)
          ≡ ok list
      pub among : has list e ≡ true
      pub is_bound : find bound e ≡ some true
      pub third_shared : key_from_peer_addr c f b w third_addr ≡ ok shared_third
      pub sealed : key ≡ encrypt_data c f b w aes nonce_bts shared_third

    -- Where `DecryptAdminAesKey` returns a key, one of the mail's receivers is marked in the map of
    -- emails, the receivers are read with the key that the sender sent, and the key returned is that
    -- one, sealed for the third party.
    pub decrypt_admin_aes_key_lem :
        decrypt_admin_aes_key c f b w sender third_addr nonce aes_key mail_receiver bound ≡ ok key
        → (e : String) × (list : List String) × (nonce_bts : List ℕ) × (aes : List ℕ)
          × (shared_sender : List ℕ) × (shared_third : List ℕ) × IsFor e list nonce_bts aes
              shared_sender shared_third
    unfolding decrypt_admin_aes_key
    decrypt_admin_aes_key_lem h =
        let (nonce_bts, h1, k1) =
          bind_ok (or_join "decode noce failed" (hex_decode nonce)) _ key h in
        let (shared, h2, k2) =
          bind_ok
            (or_join "shared key between admin and sender failed"
              (key_from_peer_addr c f b w sender))
            _ key k1 in
        let (aes_bts, h3, k3) =
          bind_ok (or_join "decode admin aes key failed" (hex_decode aes_key)) _ key k2 in
        let (aes, h4, k4) =
          bind_ok
            (or_join "decrypt admin aes key failed" (decrypt_data c f b w aes_bts nonce_bts shared))
            _ key k3 in
        let (receivers, h5, k5) =
          bind_ok (or_join "decode mail receivers failed" (b.base64_decode mail_receiver)) _ key
            k4 in
        let (plain_receivers, h6, k6) =
          bind_ok
            (or_join "decrypt mail receivers failed" (decrypt_data c f b w receivers nonce_bts aes))
            _ key k5 in
        let (list, h7, k7) =
          bind_ok
            (or_join "unwrap mail list in mail body failed" (b.unmarshal_strings plain_receivers)) _
            key k6 in
        let (u, h8, k8) =
          bind_ok
            (if is_match list bound
              then ok tt
              else err (plain "bind your email to BMail first please"))
            _ key k7 in
        let (third, h9, k9) =
          bind_ok
            (or_join "shared key between admin and receiver failed"
              (key_from_peer_addr c f b w third_addr))
            _ key k8 in
        let (e, found, marked) = is_match_found list bound (ground (arith, h8)) in
        (
          e,
          list,
          nonce_bts,
          aes,
          shared,
          third,
          record {
            nonce_read = join_ok _ _ nonce_bts h1;
            sender_shared = join_ok _ _ shared h2;
            opened = ground (arith, join_ok _ _ aes_bts h3, join_ok _ _ aes h4);
            listed = ground (
              arith,
              join_ok _ _ receivers h5,
              join_ok _ _ plain_receivers h6,
              join_ok _ _ list h7,
            );
            among = found;
            is_bound = marked;
            third_shared = join_ok _ _ third h9;
            sealed = ground (arith, k9);
          },
        )
