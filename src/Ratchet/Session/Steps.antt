-- ===== src/Ratchet/Session/Steps.antt =====
-- The steps that the session's methods share: key derivation, opening a frame, closing a cursor.
use quietwire.Base.{ℕ, ◌*◌, ◌≡◌, ◌⊎◌, inl, inr, arith, length, take, drop, length-take, length-drop}
use quietwire.Base.{ok, err}
use quietwire.Bytes.{Bytes}
use quietwire.Crypto.{Primitives, HasLengths, invalid_public_key, authentication}
use quietwire.Crypto.Secret.{SecretKey, from_slice_lem, key_len}
use quietwire.Crypto.Aead.{open_sealed-cases}
use quietwire.Crypto.Kdf.{hkdf_sha512_total}
use quietwire.Crypto.X25519.{PrivateKey, PublicKey, diffie_hellman-cases}
use quietwire.Ratchet.{Key, crypto, SealedFrame, header_len, frame_len, plaintext_len}
use quietwire.Ratchet.Chain.{Chain, Cursor, start, into_chain, kdf_root, root_info}
use quietwire.Ratchet.Session.{open_frame}

abbrev pub chain_at : Key → ℕ → Chain
chain_at key next = record { key = record { expose_secret = key }; next = next }

pub start_lem : (key : Key) → length key ≡ 32 → start key ≡ ok (chain_at key 0)
unfolding start
start_lem key h = ground (arith, from_slice_lem key h)

pub into_chain_lem : (c : Cursor) → length c.key ≡ 32 → into_chain c ≡ ok (chain_at c.key c.next)
unfolding into_chain
into_chain_lem c h = ground (arith, from_slice_lem c.key h)

module _ (P : Primitives) (L : HasLengths P) where
  -- A root step refuses a low-order key, or gives two keys of 32 bytes.
  pub kdf_root-cases :
      (root : SecretKey) (own : PrivateKey) (remote : PublicKey)
      → (kdf_root P root own remote ≡ err (crypto invalid_public_key))
        ⊎ ((next : SecretKey) × (chain : Key) × (kdf_root P root own remote ≡ ok (next, chain))
            × (length next.expose_secret ≡ 32)
            × (length chain ≡ 32))
  unfolding kdf_root
  kdf_root-cases root own remote = elim (diffie_hellman-cases P L own remote) [
    | inl e ↦ inl (ground arith)
    | inr (shared, e, _) ↦
        let (okm, d, len) =
          hkdf_sha512_total P L shared.expose_secret root.expose_secret root_info (2 * key_len)
            (omega arith) in
        let left : length (take key_len okm) ≡ 32 = omega (arith, length-take key_len okm) in
        let right : length (drop key_len okm) ≡ 32 = omega (arith, length-drop key_len okm) in
        inr (
          record { expose_secret = take key_len okm },
          drop key_len okm,
          ground (arith, from_slice_lem (take key_len okm) left),
          left,
          right,
        )
  ]

  pub kdf_root-length :
      (root : SecretKey) (own : PrivateKey) (remote : PublicKey) (next : SecretKey) (chain : Key)
      → kdf_root P root own remote ≡ ok (next, chain)
      → (length next.expose_secret ≡ 32) × (length chain ≡ 32)
  kdf_root-length root own remote next chain e = elim (kdf_root-cases root own remote) [
    | inl refused ↦ absurd (cc)
    | inr (r, k, e', root_len, len) ↦ ground (arith, e, e', root_len, len)
  ]

  -- A frame of the right length opens to 396 bytes, or does not authenticate.
  pub open_frame-cases :
      (key : Key) (sealed : SealedFrame)
      → length key ≡ 32
      → length sealed.frame ≡ frame_len
      → (open_frame P key sealed ≡ err (crypto authentication))
        ⊎ ((plaintext : Bytes) × (open_frame P key sealed ≡ ok plaintext)
            × (length plaintext ≡ plaintext_len))
  unfolding open_frame
  open_frame-cases key sealed hk hf =
      elim (open_sealed-cases P L (record { expose_secret = key }) sealed.nonce
        (take header_len sealed.frame) (drop header_len sealed.frame)) [
          | inl e ↦ inl (ground (arith, from_slice_lem key hk))
          | inr (msg, e, len) ↦
              let size : length msg ≡ plaintext_len =
                omega (arith, length-drop header_len sealed.frame) in
              inr (msg, ground (arith, from_slice_lem key hk, size), size)
        ]
