-- ===== src/Wallet/Cipher/Streams.antt =====
-- The key stream of CFB: a decrypter undoes an encrypter, and neither changes the length.
use contact_server.Base.{
  ℕ, ◌+◌, ◌<◌, ◌≡◌, refl, Bool, true, false, [], ◌∷◌, ◌++◌, length, length-append, List-cases,
  bit_xor, bit_xor_twice, bit_xor-lt_byte, if◌then◌else◌, arith, inl, inr,
}
use contact_server.Wallet.Hex.{IsBytes}
use contact_server.Wallet.Cipher.{
  Bytes, Aes, IsLawful, Block, block_size, stream_left, register_left, xor_key_stream,
}

-- Between two bytes, what is left of the stream and what the register has taken make one block.
record Ready (out register : Bytes) : Type 0 where
  whole : length out + length register ≡ block_size
  bytes : IsBytes out

module _ (a : Aes) (L : IsLawful a) (key : Bytes) where
  abbrev block : Block
  block = a.aes_block key

  stream_left-Ready :
      (out register : Bytes)
      → Ready out register
      → (length (stream_left block out register) + length (register_left out register) ≡ block_size)
        × (0 < length (stream_left block out register))
        × IsBytes (stream_left block out register)
  stream_left-Ready [] register r = ground (arith, r.whole, L.blocks key register)
  stream_left-Ready (o ∷ out) register r = ground (arith, r.whole, r.bytes)

  next-Ready :
      (o b : ℕ) (rest out register : Bytes)
      → Ready out register
      → stream_left block out register ≡ o ∷ rest
      → Ready rest (register_left out register ++ (b ∷ [])) × (o < 256)
  next-Ready o b rest out register r e =
      let (whole, _, bytes) = rw e at (stream_left-Ready out register r) in
      (
        record {
          whole = omega (arith, whole, length-append (register_left out register) (b ∷ []));
          bytes = bytes.1;
        },
        bytes.0,
      )

  -- One byte of either direction.
  xor_key_stream_step :
      (decrypts : Bool) (o x : ℕ) (rest src out register : Bytes)
      → stream_left block out register ≡ o ∷ rest
      → xor_key_stream decrypts block out register (x ∷ src)
        ≡ bit_xor x o
          ∷ xor_key_stream decrypts block rest
              (register_left out register ++ ((if decrypts then x else bit_xor x o) ∷ []))
              src
  unfolding xor_key_stream
  xor_key_stream_step decrypts o x rest src out register e = ground (arith, e)

  twice_from :
      (src out register : Bytes)
      → Ready out register
      → xor_key_stream true block out register (xor_key_stream false block out register src) ≡ src
  unfolding xor_key_stream
  twice_from [] out register r = refl
  twice_from (x ∷ src) out register r = elim (List-cases (stream_left block out register)) [
    | inl empty ↦ absurd (ground (arith, empty, stream_left-Ready out register r))
    | inr (o, rest, e) ↦
        let (ready, _) = next-Ready o (bit_xor x o) rest out register r e in
        let y = bit_xor x o in
        let taken = register_left out register ++ (y ∷ []) in
        let hidden = xor_key_stream false block rest taken src in
        cc (
          xor_key_stream_step false o x rest src out register e,
          xor_key_stream_step true o y rest hidden out register e,
          bit_xor_twice x o,
          twice_from src rest taken ready,
        )
  ]

  kept_from :
      (decrypts : Bool) (src out register : Bytes)
      → Ready out register
      → IsBytes src
      → (length (xor_key_stream decrypts block out register src) ≡ length src)
        × IsBytes (xor_key_stream decrypts block out register src)
  unfolding xor_key_stream
  kept_from decrypts [] out register r h = (refl, tt)
  kept_from decrypts (x ∷ src) out register r (lt, h) =
      elim (List-cases (stream_left block out register)) [
        | inl empty ↦ absurd (ground (arith, empty, stream_left-Ready out register r))
        | inr (o, rest, e) ↦
            let b = if decrypts then x else bit_xor x o in
            let (ready, small) = next-Ready o b rest out register r e in
            rw (xor_key_stream_step decrypts o x rest src out register e) (
              ground (
                arith,
                bit_xor-lt_byte x o lt small,
                kept_from decrypts src rest (register_left out register ++ (b ∷ [])) ready h,
              ))
      ]

  start-Ready : (iv : Bytes) → length iv ≡ block_size → Ready [] iv
  start-Ready iv h = record { whole = omega (arith, h); bytes = tt }

  -- From one initial vector, a decrypter undoes an encrypter.
  pub xor_key_stream-twice :
      (iv src : Bytes)
      → length iv ≡ block_size
      → xor_key_stream true block [] iv (xor_key_stream false block [] iv src) ≡ src
  xor_key_stream-twice iv src h = twice_from src [] iv (start-Ready iv h)

  -- Bytes stay bytes, and as many.
  pub xor_key_stream-IsBytes :
      (decrypts : Bool) (iv src : Bytes)
      → length iv ≡ block_size
      → IsBytes src
      → (length (xor_key_stream decrypts block [] iv src) ≡ length src)
        × IsBytes (xor_key_stream decrypts block [] iv src)
  xor_key_stream-IsBytes decrypts iv src h = kept_from decrypts src [] iv (start-Ready iv h)
