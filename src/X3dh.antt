-- ===== src/X3dh.antt =====
-- crates/quietwire-e2e/src/x3dh.rs: session establishment by hybrid X3DH.
pub mod Outcomes
pub mod Agreement
pub mod Binding
pub mod Conversation
mod Tests
use quietwire.Base.{ℕ, Option, none, some, List, [], ◌∷◌, ◌++◌, replicate}
use quietwire.Base.{Result, ok, ◌>>=◌}
use quietwire.Bytes.{Bytes}
use quietwire.Crypto.{Error, Primitives}
use quietwire.Crypto.Secret.{SecretKey, Draw, from_slice}
use quietwire.Crypto.Kdf.{hkdf_sha512}
use quietwire.Crypto.Hash.{derive_key}
use quietwire.Crypto.X25519
use quietwire.Crypto.X25519.{PrivateKey, PublicKey, public_key, diffie_hellman}
use quietwire.Crypto.MlKem
use quietwire.Crypto.MlKem.{
  KemLibrary, EncapsulationKey, DecapsulationKey, Ciphertext, decapsulate, encapsulate,
}
use quietwire.Crypto.Ed25519
use quietwire.Crypto.Ed25519.{SignatureLibrary, VerifyingKey}

abbrev pub shared_key_len : ℕ
shared_key_len = 32

-- `TRANSCRIPT_CONTEXT`: "QUIETWIRE-X3DH-TRANSCRIPT-v1".
abbrev pub transcript_context : Bytes
transcript_context =
    0x51 ∷ 0x55 ∷ 0x49 ∷ 0x45 ∷ 0x54 ∷ 0x57 ∷ 0x49 ∷ 0x52 ∷ 0x45 ∷ 0x2d ∷ 0x58 ∷ 0x33 ∷ 0x44 ∷ 0x48
    ∷ 0x2d ∷ 0x54 ∷ 0x52 ∷ 0x41 ∷ 0x4e ∷ 0x53 ∷ 0x43 ∷ 0x52 ∷ 0x49 ∷ 0x50 ∷ 0x54 ∷ 0x2d ∷ 0x76
    ∷ 0x31 ∷ []

-- `HYBRID_INFO`: "QUIETWIRE-X3DH-HYBRID-v1".
abbrev pub hybrid_info : Bytes
hybrid_info =
    0x51 ∷ 0x55 ∷ 0x49 ∷ 0x45 ∷ 0x54 ∷ 0x57 ∷ 0x49 ∷ 0x52 ∷ 0x45 ∷ 0x2d ∷ 0x58 ∷ 0x33 ∷ 0x44 ∷ 0x48
    ∷ 0x2d ∷ 0x48 ∷ 0x59 ∷ 0x42 ∷ 0x52 ∷ 0x49 ∷ 0x44 ∷ 0x2d ∷ 0x76 ∷ 0x31 ∷ []

abbrev pub curve25519_prefix : Bytes
curve25519_prefix = replicate 32 0xff

-- The secrets' bytes, one after the other.
abbrev pub exposed : List SecretKey → Bytes
exposed [] = []
exposed (secret ∷ secrets) = secret.expose_secret ++ exposed secrets

-- What the initiator sends.
pub record InitialMessage : Type 0 where
  pub ephemeral : PublicKey
  pub kem_ciphertext : Ciphertext

-- `map_or(&[][..], |key| key.as_bytes())`.
abbrev pub prekey_bytes : Option PublicKey → Bytes
prekey_bytes none = []
prekey_bytes (some key) = key.as_bytes

module _ (P : Primitives) where
  -- `secrets` are `DH1..DH4` followed by `SS_pq`.
  unfoldable pub derive_shared_key : List SecretKey → Bytes → Result Error SecretKey
  derive_shared_key secrets transcript = do
    okm ← hkdf_sha512 P (curve25519_prefix ++ exposed secrets) transcript hybrid_info shared_key_len
    from_slice okm

  -- The initiator's `DH4`, if the bundle has a one-time prekey.
  abbrev pub initiator_dh4 : PrivateKey → Option PublicKey → Result Error (List SecretKey)
  initiator_dh4 ephemeral none = ok []
  initiator_dh4 ephemeral (some key) = diffie_hellman P ephemeral key >>= λ secret. ok (secret ∷ [])

  -- The responder's `DH4`, if it has the one-time prekey.
  abbrev pub responder_dh4 : Option PrivateKey → PublicKey → Result Error (List SecretKey)
  responder_dh4 none ephemeral = ok []
  responder_dh4 (some key) ephemeral = diffie_hellman P key ephemeral >>= λ secret. ok (secret ∷ [])

  -- `self.one_time_prekey.map(PrivateKey::public_key)`.
  abbrev pub public_prekey : Option PrivateKey → Option PublicKey
  public_prekey none = none
  public_prekey (some key) = some (public_key P key)

  module _ (K : KemLibrary) (E : SignatureLibrary) where
    pub record IdentityPublic : Type 0 where
      pub sign : VerifyingKey E
      pub dh : PublicKey
      pub kem : EncapsulationKey K

    unfoldable pub identity_bytes : IdentityPublic → Bytes
    identity_bytes identity =
        Ed25519.to_bytes E identity.sign ++ (identity.dh.as_bytes ++ MlKem.to_bytes K identity.kem)

    pub record PrekeyBundle : Type 0 where
      pub identity : IdentityPublic
      pub signed_prekey : PublicKey
      pub one_time_prekey : Option PublicKey

    pub record Initiator : Type 0 where
      pub identity : IdentityPublic
      pub identity_dh : PrivateKey

    pub record Responder : Type 0 where
      pub identity : IdentityPublic
      pub identity_dh : PrivateKey
      pub kem : DecapsulationKey
      pub signed_prekey : PrivateKey
      pub one_time_prekey : Option PrivateKey

    -- What the transcript hashes.
    unfoldable pub transcript_input : IdentityPublic → PrekeyBundle → InitialMessage → Bytes
    unfolding identity_bytes
    transcript_input initiator bundle message =
        identity_bytes initiator
        ++ (identity_bytes bundle.identity
            ++ (message.ephemeral.as_bytes
                ++ (bundle.signed_prekey.as_bytes
                    ++ (prekey_bytes bundle.one_time_prekey ++ message.kem_ciphertext.as_bytes))))

    unfoldable pub transcript : IdentityPublic → PrekeyBundle → InitialMessage → Bytes
    unfolding transcript_input
    transcript initiator bundle message =
        derive_key P transcript_context (transcript_input initiator bundle message)

    -- `Initiator::initiate_with`.
    unfoldable pub initiate_with :
        Initiator
        → PrekeyBundle
        → PrivateKey
        → Ciphertext × SecretKey
        → Result Error (SecretKey × InitialMessage)
    unfolding derive_shared_key transcript
    initiate_with initiator bundle ephemeral (kem_ciphertext, kem_shared) =
        let message : InitialMessage = record {
          ephemeral = public_key P ephemeral;
          kem_ciphertext = kem_ciphertext;
        } in
        do
          dh1 ← diffie_hellman P initiator.identity_dh bundle.signed_prekey
          dh2 ← diffie_hellman P ephemeral bundle.identity.dh
          dh3 ← diffie_hellman P ephemeral bundle.signed_prekey
          dh4 ← initiator_dh4 ephemeral bundle.one_time_prekey
          key ←
              derive_shared_key ((dh1 ∷ dh2 ∷ dh3 ∷ []) ++ (dh4 ++ (kem_shared ∷ [])))
                (transcript initiator.identity bundle message)
          ok (key, message)

    -- `Initiator::initiate`, with the generator's two draws.
    unfoldable pub initiate :
        Initiator → PrekeyBundle → Draw → Draw → Result Error (SecretKey × InitialMessage)
    unfolding initiate_with
    initiate initiator bundle first second = do
      ephemeral ← X25519.generate first
      encapsulation ← encapsulate K bundle.identity.kem second
      initiate_with initiator bundle ephemeral encapsulation

    unfoldable pub bundle : Responder → PrekeyBundle
    bundle responder = record {
      identity = responder.identity;
      signed_prekey = public_key P responder.signed_prekey;
      one_time_prekey = public_prekey responder.one_time_prekey;
    }

    -- `Responder::respond`.
    unfoldable pub respond : Responder → IdentityPublic → InitialMessage → Result Error SecretKey
    unfolding derive_shared_key transcript bundle
    respond responder initiator message = do
      dh1 ← diffie_hellman P responder.signed_prekey initiator.dh
      dh2 ← diffie_hellman P responder.identity_dh message.ephemeral
      dh3 ← diffie_hellman P responder.signed_prekey message.ephemeral
      dh4 ← responder_dh4 responder.one_time_prekey message.ephemeral
      derive_shared_key
          ((dh1 ∷ dh2 ∷ dh3 ∷ [])
            ++ (dh4 ++ (decapsulate K responder.kem message.kem_ciphertext ∷ [])))
          (transcript initiator (bundle responder) message)
