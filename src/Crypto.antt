-- ===== src/Crypto.antt =====
-- crates/quietwire-crypto: the error type of src/error.rs, and what the crate takes from the
-- libraries that it wraps (x25519-dalek, hkdf, hmac, sha2, chacha20poly1305, blake3, ml-kem),
-- which are parameters here. The children model the crate's modules.
pub mod Secret
pub mod Aead
pub mod Kdf
pub mod X25519
pub mod Hash
pub mod MlKem
pub mod Ed25519
pub mod Hierarchy
pub mod Password
use quietwire.Base.{ℕ, ◌+◌, ◌≤◌, ◌≡◌, Option, some, length}
use quietwire.Bytes.{Bytes}

pub data Error : Type 0 where
  invalid_length authentication rng kdf invalid_public_key invalid_signature : Error

-- The library functions that the crate calls, by their documented interfaces.
pub record Primitives : Type 0 where
  -- `x25519_dalek::x25519 scalar point`, and its base point.
  pub x25519 : Bytes → Bytes → Bytes
  pub basepoint : Bytes
  -- `Hkdf::<Sha512>::new(salt, ikm).expand(info, okm)` on a buffer of the given length.
  pub hkdf_expand : (salt ikm info : Bytes) → ℕ → Option Bytes
  -- HMAC-SHA512 of a message under a key.
  pub hmac : (key message : Bytes) → Bytes
  -- XChaCha20-Poly1305; the tag follows the ciphertext.
  pub aead_encrypt : (key nonce aad msg : Bytes) → Option Bytes
  pub aead_decrypt : (key nonce aad msg : Bytes) → Option Bytes
  -- BLAKE3 in its keyed and key-derivation modes.
  pub blake3_keyed_hash : (key input : Bytes) → Bytes
  pub blake3_derive_key : (context key_material : Bytes) → Bytes

-- The output lengths that the libraries document, most of them by an array type.
pub record HasLengths (P : Primitives) : Type 0 where
  pub x25519_len : (scalar point : Bytes) → length (P.x25519 scalar point) ≡ 32
  -- `expand` fills its buffer, and refuses only more than 255 blocks of 64 bytes.
  pub hkdf_len :
      (salt ikm info : Bytes) (n : ℕ) {okm : Bytes}
      → P.hkdf_expand salt ikm info n ≡ some okm
      → length okm ≡ n
  pub hkdf_total :
      (salt ikm info : Bytes) (n : ℕ)
      → n ≤ 16320
      → (okm : Bytes) × (P.hkdf_expand salt ikm info n ≡ some okm)
  pub hmac_len : (key message : Bytes) → length (P.hmac key message) ≡ 64
  pub encrypt_len :
      (key nonce aad msg : Bytes) {sealed : Bytes}
      → P.aead_encrypt key nonce aad msg ≡ some sealed
      → length sealed ≡ length msg + 16
  pub decrypt_len :
      (key nonce aad sealed : Bytes) {msg : Bytes}
      → P.aead_decrypt key nonce aad sealed ≡ some msg
      → length sealed ≡ length msg + 16
  pub derive_key_len :
      (context key_material : Bytes) → length (P.blake3_derive_key context key_material) ≡ 32

-- The cipher seals any message up to its limit (the bound is far below it), and opens what it
-- sealed under the same key, nonce and associated data.
pub record OpensSealed (P : Primitives) : Type 0 where
  pub seals :
      (key nonce aad msg : Bytes)
      → length msg ≤ 1000000
      → (sealed : Bytes) × (P.aead_encrypt key nonce aad msg ≡ some sealed)
  pub opens :
      (key nonce aad msg : Bytes) {sealed : Bytes}
      → P.aead_encrypt key nonce aad msg ≡ some sealed
      → P.aead_decrypt key nonce aad sealed ≡ some msg

-- Diffie-Hellman: both parties compute the same point.
pub record DhCommutes (P : Primitives) : Type 0 where
  pub commutes :
      (a b : Bytes) → P.x25519 a (P.x25519 b P.basepoint) ≡ P.x25519 b (P.x25519 a P.basepoint)
