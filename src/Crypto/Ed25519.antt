-- ===== src/Crypto/Ed25519.antt =====
-- crates/quietwire-crypto/src/ed25519.rs. The library ed25519-dalek is a parameter.
use quietwire.Base.{ℕ, Bool, Option, if◌then◌else◌}
use quietwire.Base.{Result, ok, err, ok_or, map_ok, ◌>>=◌}
use quietwire.Bytes.{Bytes}
use quietwire.Crypto.{Error, invalid_public_key, invalid_signature}
use quietwire.Crypto.Secret.{SecretKey, Draw, random}

abbrev pub verifying_key_len : ℕ
verifying_key_len = 32

abbrev pub signature_len : ℕ
signature_len = 64

-- What the crate calls of ed25519-dalek; a signing key is expanded from its seed.
pub record SignatureLibrary : Type 1 where
  pub Key : Type 0
  -- `VerifyingKey::from_bytes`, which decodes a curve point, and `to_bytes`.
  pub parse : Bytes → Option Key
  pub print : Key → Bytes
  -- `SigningKey::from_bytes(seed).verifying_key()` and `sign`.
  pub public_of : Bytes → Key
  pub sign : (seed message : Bytes) → Bytes
  pub verify_strict : Key → (message signature : Bytes) → Bool

pub record SigningKey : Type 0 where
  pub seed : SecretKey

pub record Signature : Type 0 where
  pub as_bytes : Bytes

unfoldable pub generate : Draw → Result Error SigningKey
generate draw = map_ok (λ seed. record { seed = seed }) (random draw)

module _ (E : SignatureLibrary) where
  pub record VerifyingKey : Type 0 where
    pub inner : E.Key

  unfoldable pub verifying_key : SigningKey → VerifyingKey
  verifying_key key = record { inner = E.public_of key.seed.expose_secret }

  unfoldable pub sign : SigningKey → Bytes → Signature
  sign key message = record { as_bytes = E.sign key.seed.expose_secret message }

  unfoldable pub from_bytes : Bytes → Result Error VerifyingKey
  from_bytes bytes = do
    inner ← ok_or (E.parse bytes) invalid_public_key
    ok (record { inner = inner })

  unfoldable pub to_bytes : VerifyingKey → Bytes
  to_bytes key = E.print key.inner

  unfoldable pub verify : VerifyingKey → Bytes → Signature → Result Error (Unit {0})
  verify key message signature =
      if E.verify_strict key.inner message signature.as_bytes then ok tt else err invalid_signature
