-- ===== src/Crypto/Aead.antt =====
-- crates/quietwire-crypto/src/aead.rs.
use quietwire.Base.{ℕ, ◌+◌, ◌≤◌, ◌≡◌, length, Option-cases}
use quietwire.Base.{Result, ok, err, ok_or, ◌>>=◌, ◌⊎◌, inl, inr}
use quietwire.Bytes.{Bytes}
use quietwire.Crypto.{Error, invalid_length, authentication, Primitives, HasLengths, OpensSealed}
use quietwire.Crypto.Secret.{SecretKey, Draw, fill}

abbrev pub nonce_len : ℕ
nonce_len = 24

abbrev pub tag_len : ℕ
tag_len = 16

pub record Nonce : Type 0 where
  pub as_bytes : Bytes

-- `Nonce::random`.
unfoldable pub random : Draw → Result Error Nonce
random draw = do bytes ← fill draw; ok (record { as_bytes = bytes })

module _ (P : Primitives) where
  unfoldable pub seal : SecretKey → Nonce → (aad plaintext : Bytes) → Result Error Bytes
  seal key nonce aad plaintext =
      ok_or (P.aead_encrypt key.expose_secret nonce.as_bytes aad plaintext) invalid_length

  unfoldable pub open_sealed : SecretKey → Nonce → (aad sealed : Bytes) → Result Error Bytes
  open_sealed key nonce aad sealed =
      ok_or (P.aead_decrypt key.expose_secret nonce.as_bytes aad sealed) authentication

  -- Opening gives a message 16 bytes shorter, or an authentication error.
  pub open_sealed-cases :
      HasLengths P
      → (key : SecretKey) (nonce : Nonce) (aad sealed : Bytes)
      → (open_sealed key nonce aad sealed ≡ err authentication)
        ⊎ ((msg : Bytes) × (open_sealed key nonce aad sealed ≡ ok msg)
            × (length sealed ≡ length msg + 16))
  unfolding open_sealed
  open_sealed-cases L key nonce aad sealed =
      elim (Option-cases (P.aead_decrypt key.expose_secret nonce.as_bytes aad sealed)) [
        | inl e ↦ inl (rw e)
        | inr (msg, e) ↦
            inr (msg, rw e, L.decrypt_len key.expose_secret nonce.as_bytes aad sealed e)
      ]

  -- What was sealed opens, under the same key, nonce and associated data.
  pub seal_total :
      HasLengths P
      → OpensSealed P
      → (key : SecretKey) (nonce : Nonce) (aad plaintext : Bytes) → length plaintext ≤ 1000000
      → (sealed : Bytes) × (seal key nonce aad plaintext ≡ ok sealed)
        × (length sealed ≡ length plaintext + 16)
        × (open_sealed key nonce aad sealed ≡ ok plaintext)
  unfolding seal open_sealed
  seal_total L O key nonce aad plaintext h =
      let (sealed, e) = O.seals key.expose_secret nonce.as_bytes aad plaintext h in
      (
        sealed,
        rw e,
        L.encrypt_len key.expose_secret nonce.as_bytes aad plaintext e,
        rw (O.opens key.expose_secret nonce.as_bytes aad plaintext e),
      )
