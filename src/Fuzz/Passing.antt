-- ===== src/Fuzz/Passing.antt =====
-- The two targets of X3DH pass on every input: no key that a peer sends makes a party panic, or fail in
-- any other way than by refusing the key.
use quietwire.Base.{◌≡◌, refl, ap, ◌⊎◌, inl, inr, none, some, arith, All, Option-cases}
use quietwire.Base.{ok}
use quietwire.Bytes.{Bytes, IsArray}
use quietwire.Crypto.{Primitives, HasLengths}
use quietwire.Crypto.Secret.{random, fill, build_in_place}
use quietwire.Crypto.X25519.{PrivateKey}
use quietwire.Crypto.X25519
use quietwire.Crypto.MlKem
use quietwire.Crypto.Ed25519
use quietwire.Crypto.MlKem.{KemLibrary, EncapsulationKey, encapsulate, encapsulate_with}
use quietwire.Crypto.Ed25519.{SignatureLibrary}
use quietwire.X3dh.{IdentityPublic, PrekeyBundle, initiate}
use quietwire.X3dh.Outcomes.{initiate_with-cases, respond-cases}
use quietwire.Fuzz.{
  KemKey, genuine, raw, kem_bytes, PeerIdentity, parse, Party, initiator, responder,
}
use quietwire.Fuzz.Edits.{IsEdit, edited_undone}
use quietwire.Fuzz.Targets.{
  accept_refusal, Bundle, Input, prekey_of, parse_bundle, x3dh_bundle, x3dh_initial_message,
}

-- ml-kem prints an encapsulation key as an array of 1 184 bytes.
pub record PrintsArrays (K : KemLibrary) : Type 0 where
  pub print_array : (key : K.Key) → IsArray 1184 (K.print key)

-- The edits of a fuzz input are bytes.
abbrev pub IsKemKey : KemKey → Type 0
IsKemKey (genuine edits) = All IsEdit edits
IsKemKey (raw bytes) = Unit {0}

module _ (P : Primitives) (K : KemLibrary) (E : SignatureLibrary) (A : PrintsArrays K)
    (genuine_kem : EncapsulationKey K) where
  kem_bytes_total :
      (key : KemKey) → IsKemKey key → (bytes : Bytes) × (kem_bytes K genuine_kem key ≡ ok bytes)
  unfolding kem_bytes MlKem.to_bytes
  kem_bytes_total (genuine edits) v =
      let (bytes, e, h, undone) =
        edited_undone edits 1184 (K.print genuine_kem.inner) (omega arith) v
          (A.print_array genuine_kem.inner) in
      (bytes, e)
  kem_bytes_total (raw bytes) v = (bytes, refl)

  parse-cases :
      (peer : PeerIdentity)
      → IsKemKey peer.kem
      → (parse P K E genuine_kem peer ≡ ok none)
        ⊎ ((identity : IdentityPublic P K E) × (parse P K E genuine_kem peer ≡ ok (some identity)))
  unfolding parse Ed25519.from_bytes MlKem.from_bytes
  parse-cases peer v = elim (Option-cases (E.parse peer.sign)) [
    | inl e ↦ inl (rw (e, parse) refl)
    | inr (sign, e) ↦
        let (bytes, printed) = kem_bytes_total peer.kem v in
        elim (Option-cases (K.parse bytes)) [
          | inl e' ↦ inl (rw (e, printed, e', parse) refl)
          | inr (kem, e') ↦
              let identity : IdentityPublic P K E = record {
                sign = record { inner = sign };
                dh = X25519.from_bytes peer.dh;
                kem = record { inner = kem };
              } in
              inr (identity, rw (e, printed, e', parse) refl)
        ]
  ]

  -- Whatever bundle a peer publishes, genuine keys with edits or any bytes at all, starting a session
  -- from it gives a key or refuses the bundle, and never panics. Both draws of the generator
  -- succeed; the libraries' lengths are assumed.
  pub x3dh_bundle_passes :
      HasLengths P
      → (party : Party P K E) (input : Bundle) (first second : Bytes) → IsKemKey input.identity.kem
      → x3dh_bundle P K E genuine_kem party input (some first) (some second) ≡ ok tt
  unfolding x3dh_bundle parse_bundle initiate X25519.generate random build_in_place fill encapsulate
  x3dh_bundle_passes L party input first second v = elim (parse-cases input.identity v) [
    | inl e ↦ rw (e, x3dh_bundle) refl
    | inr (identity, e) ↦
        let bundle : PrekeyBundle P K E = record {
          identity = identity;
          signed_prekey = X25519.from_bytes input.signed_prekey;
          one_time_prekey = prekey_of input.one_time_prekey;
        } in
        let ephemeral : PrivateKey = record { secret = record { expose_secret = first } } in
        let (ciphertext, shared) = encapsulate_with K identity.kem second in
        elim (initiate_with-cases P K E L (initiator P K E party) bundle ephemeral ciphertext
          shared) [
            | inl refused ↦ rw (e, x3dh_bundle) (ap accept_refusal refused)
            | inr (key, message, started, size) ↦ rw (e, x3dh_bundle) (ap accept_refusal started)
          ]
  ]

  -- Whatever identity and first message a peer sends, the responder gives a key or refuses one of
  -- the peer's keys, with or without the one-time prekey, and never panics. The libraries'
  -- lengths are assumed.
  pub x3dh_initial_message_passes :
      HasLengths P
      → (party : Party P K E) (input : Input) → IsKemKey input.initiator.kem
      → x3dh_initial_message P K E genuine_kem party input ≡ ok tt
  unfolding x3dh_initial_message
  x3dh_initial_message_passes L party input v = elim (parse-cases input.initiator v) [
    | inl e ↦ rw (e, x3dh_initial_message) refl
    | inr (identity, e) ↦
        elim (respond-cases P K E L (responder P K E party input.with_one_time_prekey) identity
          (record {
            ephemeral = X25519.from_bytes input.ephemeral;
            kem_ciphertext = record { as_bytes = input.kem_ciphertext };
          })) [
            | inl refused ↦ rw (e, x3dh_initial_message, refused) refl
            | inr (key, derived, size) ↦ rw (e, x3dh_initial_message, derived) refl
          ]
  ]
