-- ===== src/Crypto/Kdf.antt =====
-- crates/quietwire-crypto/src/kdf.rs.
use quietwire.Base.{ℕ, ◌≤◌, ◌≡◌, length}
use quietwire.Base.{Result, ok, ok_or}
use quietwire.Bytes.{Bytes}
use quietwire.Crypto.{Error, invalid_length, Primitives, HasLengths}

module _ (P : Primitives) where
  unfoldable pub hkdf_sha512 : (ikm salt info : Bytes) → ℕ → Result Error Bytes
  hkdf_sha512 ikm salt info len = ok_or (P.hkdf_expand salt ikm info len) invalid_length

  unfoldable pub hmac_sha512 : (key message : Bytes) → Bytes
  hmac_sha512 key message = P.hmac key message

  -- Up to 16 320 bytes it gives as many as were asked for.
  pub hkdf_sha512_total :
      HasLengths P
      → (ikm salt info : Bytes) (n : ℕ) → n ≤ 16320
      → (okm : Bytes) × (hkdf_sha512 ikm salt info n ≡ ok okm) × (length okm ≡ n)
  unfolding hkdf_sha512
  hkdf_sha512_total L ikm salt info n h =
      let (okm, e) = L.hkdf_total salt ikm info n h in (okm, rw e, L.hkdf_len salt ikm info n e)

  pub length-hmac_sha512 :
      HasLengths P → (key message : Bytes) → length (hmac_sha512 key message) ≡ 64
  unfolding hmac_sha512
  length-hmac_sha512 L key message = L.hmac_len key message
