-- ===== src/Fuzz/Targets.antt =====
-- tools/fuzz/fuzz_targets/x3dh_bundle.rs and x3dh_initial_message.rs: what either party of X3DH makes
-- of a peer's keys. The party of the target and the genuine KEM key are given.
use quietwire.Base.{Bool, Option, none, some}
use quietwire.Base.{Result, ok, err, panic}
use quietwire.Bytes.{Bytes}
use quietwire.Crypto.{Error, invalid_public_key, Primitives}
use quietwire.Crypto.Secret.{Draw}
use quietwire.Crypto.X25519
use quietwire.Crypto.X25519.{PublicKey}
use quietwire.Crypto.MlKem.{KemLibrary, EncapsulationKey}
use quietwire.Crypto.Ed25519.{SignatureLibrary}
use quietwire.X3dh.{PrekeyBundle, initiate, respond}
use quietwire.Fuzz.{PeerIdentity, parse, Party, initiator, responder, and_then}

-- The two targets end in the same match: a success and a refused key are fine.
abbrev pub accept_refusal {ℓ} : {A : Type ℓ} → Result Error A → Result Error (Unit {0})
accept_refusal (ok a) = ok tt
accept_refusal (err invalid_public_key) = ok tt
accept_refusal (err other) = panic
accept_refusal panic = panic

-- `let Some(input) = parsed else { return; }`.
abbrev pub or_return {ℓ} :
    {A : Type ℓ} → Result Error (Option A) → (A → Result Error (Unit {0})) → Result Error (Unit {0})
or_return (ok none) f = ok tt
or_return (ok (some a)) f = f a
or_return (err e) f = err e
or_return panic f = panic

pub record Bundle : Type 0 where
  pub identity : PeerIdentity
  pub signed_prekey : Bytes
  pub one_time_prekey : Option Bytes

-- The input of x3dh_initial_message.
pub record Input : Type 0 where
  pub initiator : PeerIdentity
  pub ephemeral : Bytes
  pub kem_ciphertext : Bytes
  pub with_one_time_prekey : Bool

abbrev pub prekey_of : Option Bytes → Option PublicKey
prekey_of none = none
prekey_of (some bytes) = some (X25519.from_bytes bytes)

module _ (P : Primitives) (K : KemLibrary) (E : SignatureLibrary)
    (genuine_kem : EncapsulationKey K) where
  -- `Bundle::parse`.
  unfoldable pub parse_bundle : Bundle → Result Error (Option (PrekeyBundle P K E))
  parse_bundle input = and_then (parse P K E genuine_kem input.identity) (λ identity. ok (
      some (record {
        identity = identity;
        signed_prekey = X25519.from_bytes input.signed_prekey;
        one_time_prekey = prekey_of input.one_time_prekey;
      })))

  unfoldable pub x3dh_bundle : Party P K E → Bundle → Draw → Draw → Result Error (Unit {0})
  unfolding parse_bundle
  x3dh_bundle party input first second =
      or_return (parse_bundle input)
        (λ bundle. accept_refusal (initiate P K E (initiator P K E party) bundle first second))

  unfoldable pub x3dh_initial_message : Party P K E → Input → Result Error (Unit {0})
  x3dh_initial_message party input = or_return (parse P K E genuine_kem input.initiator) (λ peer.
      accept_refusal (
        respond P K E (responder P K E party input.with_one_time_prekey) peer (record {
          ephemeral = X25519.from_bytes input.ephemeral;
          kem_ciphertext = record { as_bytes = input.kem_ciphertext };
        })))
