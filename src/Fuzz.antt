-- ===== src/Fuzz.antt =====
-- tools/fuzz/src/lib.rs: the keys and sessions that the fuzz targets share. The children model the
-- targets under tools/fuzz/fuzz_targets. A target returns, or panics when an assertion fails.
pub mod Edits
pub mod Targets
pub mod Passing
pub mod Reheadered
pub mod Dialogue
mod Tests
use quietwire.Base.{
  ℕ, ◌%◌, Bool, true, false, Option, none, some, List, [], ◌∷◌, length, replicate, update,
  get_elem?, if◌then◌else◌,
}
use quietwire.Base.{Result, ok, err, panic, ◌>>=◌}
use quietwire.Bytes.{Bytes}
use quietwire.Crypto.{Error, Primitives}
use quietwire.Crypto.Secret.{Draw, SecretKey, from_slice}
use quietwire.Crypto.X25519
use quietwire.Crypto.X25519.{PrivateKey, PublicKey, public_key}
use quietwire.Crypto.MlKem
use quietwire.Crypto.MlKem.{KemLibrary, EncapsulationKey, DecapsulationKey, encapsulation_key}
use quietwire.Crypto.Ed25519
use quietwire.Crypto.Ed25519.{SignatureLibrary, verifying_key}
use quietwire.Ratchet
use quietwire.Ratchet.Session as RatchetSession
use quietwire.Ratchet.Session.{Session}
use quietwire.X3dh.{IdentityPublic, Initiator, Responder}
use Prim.Native.Nat.{bit_xor}

-- `expect`: an error is a panic.
abbrev pub expect {ℓ} : {E F : Type 0} {A : Type ℓ} → Result E A → Result F A
expect (ok a) = ok a
expect (err e) = panic
expect panic = panic

-- `ok()?` in a function that returns an `Option`.
abbrev pub ok_some {ℓ} : {E : Type 0} {A : Type ℓ} → Result E A → Result E (Option A)
ok_some (ok a) = ok (some a)
ok_some (err e) = ok none
ok_some panic = panic

pub record Edit : Type 0 where
  pub at : ℕ
  pub xor : ℕ

-- `bytes[usize::from(edit.at) % N] ^= edit.xor`; an array of no bytes panics.
unfoldable pub apply_edit : Edit → Bytes → Result Error Bytes
apply_edit edit bytes =
    let index = edit.at % length bytes in
    elim (get_elem? bytes index) [
      | none ↦ panic
      | some byte ↦ ok (update bytes index (bit_xor byte edit.xor))
    ]

unfoldable pub edited : Bytes → List Edit → Result Error Bytes
unfolding apply_edit
edited bytes [] = ok bytes
edited bytes (edit ∷ edits) = apply_edit edit bytes >>= λ bytes'. edited bytes' edits

pub data KemKey : Type 0 where
  genuine : List Edit → KemKey
  raw : Bytes → KemKey

-- An identity as a peer sends it.
pub record PeerIdentity : Type 0 where
  pub sign : Bytes
  pub dh : Bytes
  pub kem : KemKey

abbrev pub shared_key : Bytes
shared_key = replicate 32 0x42

module _ (P : Primitives) where
  -- The sessions of `Conversation::start`: the initiator's and the responder's.
  unfoldable pub start : Draw → Draw → Result Ratchet.Error (Session × Session)
  start first second = do
    signed_prekey ← expect (X25519.generate first)
    let remote_ratchet = public_key P signed_prekey
    key ← expect (from_slice shared_key)
    alice ← expect (RatchetSession.initiator P key remote_ratchet second)
    key' ← expect (from_slice shared_key)
    ok (alice, RatchetSession.responder P key' signed_prekey)

-- `?` on an option, in a function whose keys may panic first.
abbrev pub and_then {ℓ κ} :
    {E : Type 0} {A : Type ℓ} {B : Type κ}
    → Result E (Option A)
    → (A → Result E (Option B))
    → Result E (Option B)
and_then (ok none) f = ok none
and_then (ok (some a)) f = f a
and_then (err e) f = err e
and_then panic f = panic

module _ (K : KemLibrary) where
  -- `KemKey::to_bytes`, with the key of `GENUINE_KEM`.
  unfoldable pub kem_bytes : EncapsulationKey K → KemKey → Result Error Bytes
  unfolding edited
  kem_bytes genuine_kem (genuine edits) = edited (MlKem.to_bytes K genuine_kem) edits
  kem_bytes genuine_kem (raw bytes) = ok bytes

-- `with_one_time_prekey.then_some(&self.one_time_prekey)`.
abbrev pub then_some {ℓ} : {A : Type ℓ} → Bool → A → Option A
then_some true a = some a
then_some false a = none

module _ (P : Primitives) (K : KemLibrary) (E : SignatureLibrary) where
  -- `PeerIdentity::parse`.
  unfoldable pub parse :
      EncapsulationKey K → PeerIdentity → Result Error (Option (IdentityPublic P K E))
  unfolding kem_bytes
  parse genuine_kem peer = and_then (ok_some (Ed25519.from_bytes E peer.sign)) (λ sign.
      kem_bytes K genuine_kem peer.kem >>= λ bytes.
      and_then (ok_some (MlKem.from_bytes K bytes))
        (λ kem. ok (some (record { sign = sign; dh = X25519.from_bytes peer.dh; kem = kem }))))

  pub record Party : Type 0 where
    pub identity : IdentityPublic P K E
    pub identity_dh : PrivateKey
    pub kem : DecapsulationKey
    pub signed_prekey : PrivateKey
    pub one_time_prekey : PrivateKey

  -- `Party::generate`, with the generator's six draws.
  unfoldable pub generate : (dh kem_d kem_z sign prekey one_time : Draw) → Result Error Party
  generate dh kem_d kem_z sign prekey one_time = do
    identity_dh ← expect (X25519.generate dh)
    kem ← expect (MlKem.generate kem_d kem_z)
    signing ← expect (Ed25519.generate sign)
    signed_prekey ← expect (X25519.generate prekey)
    one_time_prekey ← expect (X25519.generate one_time)
    ok (record {
      identity = record {
        sign = verifying_key E signing;
        dh = public_key P identity_dh;
        kem = encapsulation_key K kem;
      };
      identity_dh = identity_dh;
      kem = kem;
      signed_prekey = signed_prekey;
      one_time_prekey = one_time_prekey;
    })

  unfoldable pub initiator : Party → Initiator P K E
  initiator party = record { identity = party.identity; identity_dh = party.identity_dh }

  unfoldable pub responder : Party → Bool → Responder P K E
  responder party with_one_time_prekey = record {
    identity = party.identity;
    identity_dh = party.identity_dh;
    kem = party.kem;
    signed_prekey = party.signed_prekey;
    one_time_prekey = then_some with_one_time_prekey party.one_time_prekey;
  }
