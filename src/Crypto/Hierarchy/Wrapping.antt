-- ===== src/Crypto/Hierarchy/Wrapping.antt =====
-- Wrapping and unwrapping a key, and the subkeys.
use quietwire.Base.{
  ◌≡◌, refl, none, some, ◌⊎◌, inl, inr, ◌++◌, arith, length, take, drop, take-append, drop-append,
  length-append, length-drop, ◌+◌,
}
use quietwire.Base.{ok, err}
use quietwire.Bytes.{Bytes}
use quietwire.Crypto.{rng, Primitives, HasLengths, OpensSealed, authentication}
use quietwire.Crypto.Secret.{fill, from_slice_lem}
use quietwire.Crypto.Aead
use quietwire.Crypto.Aead.{Nonce, seal, open_sealed, open_sealed-cases, seal_total}
use quietwire.Crypto.Hierarchy.{
  Kek, Dek, WrappedDek, Purpose, subkey_info, wrap_aad, wrapped_dek_len, wrapped_of, wrap_with,
  unwrap_with,
}

module _ (P : Primitives) (L : HasLengths P) where
  unwrap_with_run :
      (dek : Dek) (kek : Kek) (nonce sealed : Bytes)
      → length dek.key.expose_secret ≡ 32
      → length nonce ≡ 24
      → open_sealed P kek.key (record { as_bytes = nonce }) wrap_aad sealed
        ≡ ok dek.key.expose_secret
      → unwrap_with P (record { to_bytes = nonce ++ sealed }) kek ≡ ok dek
  unfolding unwrap_with
  unwrap_with_run dek kek nonce sealed hk hn e =
      rw (take-append 24 nonce sealed hn, drop-append 24 nonce sealed hn)
        (ground (arith, from_slice_lem dek.key.expose_secret hk))

  -- A key that is wrapped gives 72 bytes that unwrap to it, under the same key-encryption key.
  -- Wrapping fails only when the generator of the nonce fails. The key has 32 bytes and a drawn
  -- nonce 24; the libraries' lengths and the cipher's round trip are assumed.
  pub unwrap_with-wrap_with :
      OpensSealed P
      → (dek : Dek) (kek : Kek) (nonce : Bytes) → length dek.key.expose_secret ≡ 32
      → length nonce ≡ 24
      → (wrap_with P dek kek none ≡ err rng)
        × ((wrapped : WrappedDek) × (wrap_with P dek kek (some nonce) ≡ ok wrapped)
            × (length wrapped.to_bytes ≡ wrapped_dek_len)
            × (unwrap_with P wrapped kek ≡ ok dek))
  unfolding wrap_with Aead.random fill wrapped_of
  unwrap_with-wrap_with O dek kek nonce hk hn = (
    refl,
    (
      record { to_bytes = nonce ++ sealed.0 },
      wrapped,
      omega (arith, length-append nonce sealed.0, sealed.2),
      unwrap_with_run dek kek nonce sealed.0 hk hn sealed.3,
    ),
  )
    where
      sealed :
          (sealed : Bytes) × (seal P kek.key
              (record { as_bytes = nonce })
              wrap_aad
              dek.key.expose_secret
            ≡ ok sealed)
          × (length sealed ≡ length dek.key.expose_secret + 16)
          × (open_sealed P kek.key (record { as_bytes = nonce }) wrap_aad sealed
              ≡ ok dek.key.expose_secret)
      sealed =
          seal_total P L O kek.key (record { as_bytes = nonce }) wrap_aad dek.key.expose_secret
            (omega arith)

      wrapped : wrap_with P dek kek (some nonce) ≡ ok (record { to_bytes = nonce ++ sealed.0 })
      wrapped =
          let size : length sealed.0 ≡ 48 = omega (arith, sealed.2) in ground (arith, sealed.1)

  -- Unwrapping gives a 32-byte key or an authentication error, on any 72 bytes. The
  -- libraries' lengths are assumed.
  pub unwrap_with-cases :
      (wrapped : WrappedDek) (kek : Kek)
      → length wrapped.to_bytes ≡ wrapped_dek_len
      → (unwrap_with P wrapped kek ≡ err authentication)
        ⊎ ((dek : Dek) × (unwrap_with P wrapped kek ≡ ok dek) × (length dek.key.expose_secret ≡ 32))
  unfolding unwrap_with
  unwrap_with-cases wrapped kek h =
      elim (open_sealed-cases P L kek.key (record { as_bytes = take 24 wrapped.to_bytes }) wrap_aad
        (drop 24 wrapped.to_bytes)) [
          | inl e ↦ inl (ground arith)
          | inr (dek, e, size) ↦
              let len : length dek ≡ 32 = omega (arith, length-drop 24 wrapped.to_bytes) in
              inr (
                record { key = record { expose_secret = dek } },
                ground (arith, from_slice_lem dek len),
                len,
              )
        ]

-- The purposes have different labels, so no two subkeys are expanded with the same info.
pub subkey_info-injective : (p q : Purpose) → subkey_info p ≡ subkey_info q → p ≡ q
unfolding subkey_info
subkey_info-injective p q e = ground arith
