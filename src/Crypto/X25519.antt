-- ===== src/Crypto/X25519.antt =====
-- crates/quietwire-crypto/src/x25519.rs. The stack scrubbing round each call has no value to model.
use quietwire.Base.{ℕ, ◌≡◌, length, replicate, if◌then◌else◌}
use quietwire.Base.{Result, ok, err, map_ok, ◌⊎◌, inl, inr, Bool-cases}
use quietwire.Bytes.{Bytes, beq}
use quietwire.Crypto.{Error, invalid_public_key, Primitives, HasLengths, DhCommutes}
use quietwire.Crypto.Secret.{SecretKey, Draw, random, from_array}

abbrev pub public_key_len : ℕ
public_key_len = 32

pub record PrivateKey : Type 0 where
  pub secret : SecretKey

pub record PublicKey : Type 0 where
  pub as_bytes : Bytes

-- `PublicKey::from_bytes`.
unfoldable pub from_bytes : Bytes → PublicKey
from_bytes bytes = record { as_bytes = bytes }

-- `PrivateKey::generate`.
unfoldable pub generate : Draw → Result Error PrivateKey
generate draw = map_ok (λ key. record { secret = key }) (random draw)

module _ (P : Primitives) where
  unfoldable pub scalar_mult : PrivateKey → Bytes → Bytes
  scalar_mult own point = P.x25519 own.secret.expose_secret point

  unfoldable pub public_key : PrivateKey → PublicKey
  unfolding scalar_mult
  public_key own = record { as_bytes = scalar_mult own P.basepoint }

  unfoldable pub diffie_hellman : PrivateKey → PublicKey → Result Error SecretKey
  unfolding scalar_mult
  diffie_hellman own peer =
      let shared = scalar_mult own peer.as_bytes in
      if beq shared (replicate public_key_len 0)
      then err invalid_public_key
      else ok (from_array shared)

  pub length-public_key : HasLengths P → (own : PrivateKey) → length (public_key own).as_bytes ≡ 32
  unfolding public_key
  length-public_key L own = L.x25519_len own.secret.expose_secret P.basepoint

  -- A shared secret of 32 bytes, or the refusal of a low-order point.
  pub diffie_hellman-cases :
      HasLengths P
      → (own : PrivateKey) (peer : PublicKey)
      → (diffie_hellman own peer ≡ err invalid_public_key)
        ⊎ ((key : SecretKey) × (diffie_hellman own peer ≡ ok key) × (length key.expose_secret ≡ 32))
  unfolding diffie_hellman from_array
  diffie_hellman-cases L own peer =
      let shared = scalar_mult own peer.as_bytes in
      elim (Bool-cases (beq shared (replicate public_key_len 0))) [
        | inl e ↦ inl (rw e)
        | inr e ↦ inr (from_array shared, rw e, L.x25519_len own.secret.expose_secret peer.as_bytes)
      ]

  -- Both ends of an exchange of public keys agree, on the secret or on the refusal.
  pub diffie_hellman_comm :
      DhCommutes P
      → (a b : PrivateKey) → diffie_hellman a (public_key b) ≡ diffie_hellman b (public_key a)
  unfolding diffie_hellman public_key
  diffie_hellman_comm D a b = rw (D.commutes a.secret.expose_secret b.secret.expose_secret)
