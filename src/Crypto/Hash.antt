-- ===== src/Crypto/Hash.antt =====
-- crates/quietwire-crypto/src/hash.rs.
use quietwire.Base.{◌≡◌, length}
use quietwire.Bytes.{Bytes}
use quietwire.Crypto.{Primitives, HasLengths}
use quietwire.Crypto.Secret.{SecretKey}

module _ (P : Primitives) where
  unfoldable pub keyed_hash : SecretKey → Bytes → Bytes
  keyed_hash key input = P.blake3_keyed_hash key.expose_secret input

  unfoldable pub derive_key : (context key_material : Bytes) → Bytes
  derive_key context key_material = P.blake3_derive_key context key_material

  pub length-derive_key :
      HasLengths P → (context key_material : Bytes) → length (derive_key context key_material) ≡ 32
  unfolding derive_key
  length-derive_key L context key_material = L.derive_key_len context key_material
