-- ===== src/X3dh/Agreement.antt =====
-- Both parties of X3DH derive the same key, and the ratchet that starts from it.
use quietwire.Base.{
  ◌≡◌, refl, sym, ap, ◌∙◌, ◌⊎◌, inl, inr, Option, none, some, List, [], ◌∷◌, ◌++◌, length,
}
use quietwire.Base.{Result, ok, err, panic, ◌>>=◌}
use quietwire.Bytes.{Bytes}
use quietwire.Crypto.{Error, invalid_public_key, Primitives, HasLengths, DhCommutes}
use quietwire.Crypto.Secret.{SecretKey}
use quietwire.Crypto.X25519.{PrivateKey, public_key, diffie_hellman, diffie_hellman_comm}
use quietwire.Crypto.MlKem.{
  KemLibrary, Decapsulates, encapsulation_key, encapsulate_with, decapsulate,
  decapsulate-encapsulate_with, Ciphertext,
}
use quietwire.Crypto.Ed25519.{SignatureLibrary}
use quietwire.Ratchet.{Key}
use quietwire.Ratchet.Session.{Session, initiator_with}
use quietwire.Ratchet.Session as Ratchet
use quietwire.Ratchet.Session.Exchange.{Turn}
use quietwire.Ratchet.Session.Start.{initiator_with-Turn}
use quietwire.X3dh.Outcomes.{respond-cases}
use quietwire.X3dh.{
  InitialMessage, Initiator, Responder, derive_shared_key, transcript, bundle, initiate_with,
  respond, initiator_dh4, responder_dh4, public_prekey,
}

abbrev with_message : {M : Type 0} → M → SecretKey → Result Error (SecretKey × M)
with_message message key = ok (key, message)

-- The two orders of reading the secrets and adding the message.
then_message :
    {M : Type 0} (message : M) (r1 r2 r3 : Result Error SecretKey)
    (r4 : Result Error (List SecretKey))
    (derive : SecretKey → SecretKey → SecretKey → List SecretKey → Result Error SecretKey)
    → (r1 >>= λ dh1.
        r2 >>= λ dh2. r3 >>= λ dh3. r4 >>= λ dh4. derive dh1 dh2 dh3 dh4 >>= with_message message)
      ≡ ((r1 >>= λ dh1. r2 >>= λ dh2. r3 >>= λ dh3. r4 >>= λ dh4. derive dh1 dh2 dh3 dh4)
          >>= with_message message)
then_message message (err e) r2 r3 r4 derive = refl
then_message message panic r2 r3 r4 derive = refl
then_message message (ok a) (err e) r3 r4 derive = refl
then_message message (ok a) panic r3 r4 derive = refl
then_message message (ok a) (ok b) (err e) r4 derive = refl
then_message message (ok a) (ok b) panic r4 derive = refl
then_message message (ok a) (ok b) (ok c) (err e) derive = refl
then_message message (ok a) (ok b) (ok c) panic derive = refl
then_message message (ok a) (ok b) (ok c) (ok d) derive = refl

module _ (P : Primitives) (K : KemLibrary) (E : SignatureLibrary) where
  -- A party's public identity belongs to its private keys.
  pub record Owns (initiator : Initiator P K E) (responder : Responder P K E) : Type 0 where
    pub initiator_dh : initiator.identity.dh ≡ public_key P initiator.identity_dh
    pub responder_dh : responder.identity.dh ≡ public_key P responder.identity_dh
    pub responder_kem : responder.identity.kem ≡ encapsulation_key K responder.kem

  -- The message that goes with an encapsulation.
  abbrev pub message_of : PrivateKey → Ciphertext → InitialMessage
  message_of ephemeral kem_ciphertext = record {
    ephemeral = public_key P ephemeral;
    kem_ciphertext = kem_ciphertext;
  }

  dh4_comm :
      DhCommutes P
      → (ephemeral : PrivateKey) (prekey : Option PrivateKey)
      → initiator_dh4 P ephemeral (public_prekey P prekey)
        ≡ responder_dh4 P prekey (public_key P ephemeral)
  dh4_comm D ephemeral none = refl
  dh4_comm D ephemeral (some key) = rw (diffie_hellman_comm P D ephemeral key)

  agree :
      DhCommutes P
      → Decapsulates K
      → (initiator : Initiator P K E) (responder : Responder P K E) (ephemeral : PrivateKey)
        (randomness : Bytes)
      → Owns initiator responder
      → let encapsulation = encapsulate_with K responder.identity.kem randomness in
        let message = message_of ephemeral encapsulation.0 in
        initiate_with P K E initiator (bundle P K E responder) ephemeral encapsulation
        ≡ (respond P K E responder initiator.identity message >>= with_message message)
  unfolding initiate_with respond bundle
  agree D A initiator responder ephemeral randomness owns =
      (λ i. dh1_comm i >>= λ dh1. dh2_comm i >>= λ dh2. dh3_comm i >>= λ dh3.
      dh4_comm D ephemeral responder.one_time_prekey i >>= λ dh4.
      derive (shared i) dh1 dh2 dh3 dh4 >>= with_message message)
      ∙ then_message message (diffie_hellman P responder.signed_prekey initiator.identity.dh)
          (diffie_hellman P responder.identity_dh (public_key P ephemeral))
          (diffie_hellman P responder.signed_prekey (public_key P ephemeral))
          (responder_dh4 P responder.one_time_prekey (public_key P ephemeral))
          (derive (decapsulate K responder.kem message.kem_ciphertext))
    where
      message : InitialMessage
      message = message_of ephemeral (encapsulate_with K responder.identity.kem randomness).0

      derive :
          SecretKey → SecretKey → SecretKey → SecretKey → List SecretKey → Result Error SecretKey
      derive kem_shared dh1 dh2 dh3 dh4 =
          derive_shared_key P ((dh1 ∷ dh2 ∷ dh3 ∷ []) ++ (dh4 ++ (kem_shared ∷ [])))
            (transcript P K E initiator.identity (bundle P K E responder) message)

      dh1_comm :
          diffie_hellman P initiator.identity_dh (public_key P responder.signed_prekey)
          ≡ diffie_hellman P responder.signed_prekey initiator.identity.dh
      dh1_comm =
          diffie_hellman_comm P D initiator.identity_dh responder.signed_prekey
          ∙ ap (diffie_hellman P responder.signed_prekey) (sym owns.initiator_dh)

      dh2_comm :
          diffie_hellman P ephemeral responder.identity.dh
          ≡ diffie_hellman P responder.identity_dh (public_key P ephemeral)
      dh2_comm =
          ap (diffie_hellman P ephemeral) owns.responder_dh
          ∙ diffie_hellman_comm P D ephemeral responder.identity_dh

      dh3_comm :
          diffie_hellman P ephemeral (public_key P responder.signed_prekey)
          ≡ diffie_hellman P responder.signed_prekey (public_key P ephemeral)
      dh3_comm = diffie_hellman_comm P D ephemeral responder.signed_prekey

      shared :
          (encapsulate_with K responder.identity.kem randomness).1
          ≡ decapsulate K responder.kem message.kem_ciphertext
      shared =
          rw owns.responder_kem (sym (decapsulate-encapsulate_with K A responder.kem randomness))

  -- The initiator and the responder of X3DH agree. Either both refuse a low-order key, or both derive
  -- the same key of 32 bytes, for every ephemeral key, encapsulation and choice of a one-time prekey.
  -- The public identities belong to the private keys; the libraries' lengths, the commutation of
  -- Diffie-Hellman and the correctness of ML-KEM are assumed.
  pub initiate_with-respond :
      HasLengths P
      → DhCommutes P
      → Decapsulates K
      → (initiator : Initiator P K E) (responder : Responder P K E) (ephemeral : PrivateKey)
        (randomness : Bytes)
      → Owns initiator responder
      → let encapsulation = encapsulate_with K responder.identity.kem randomness in
        let message = message_of ephemeral encapsulation.0 in
        let sent = initiate_with P K E initiator (bundle P K E responder) ephemeral encapsulation in
        let received = respond P K E responder initiator.identity message in
        ((sent ≡ err invalid_public_key) × (received ≡ err invalid_public_key))
        ⊎ ((key : SecretKey) × (sent ≡ ok (key, message))
            × (received ≡ ok key)
            × (length key.expose_secret ≡ 32))
  initiate_with-respond L D A initiator responder ephemeral randomness owns =
      let same = agree D A initiator responder ephemeral randomness owns in
      elim (respond-cases P K E L responder initiator.identity
        (message_of ephemeral (encapsulate_with K responder.identity.kem randomness).0)) [
          | inl e ↦ inl (same ∙ rw e, e)
          | inr (key, e, size) ↦ inr (key, same ∙ rw e, e, size)
        ]

  -- From the key exchange to the first message: when the initiator derives a key and starts a ratchet
  -- session with it against the responder's signed prekey, the responder derives the same key and
  -- the session that it starts can take the initiator's first turn. The hypotheses are those of the
  -- key exchange and of the ratchet: public identities that belong to the private keys, the libraries'
  -- lengths, the commutation of Diffie-Hellman, the correctness of ML-KEM.
  pub establishes-Turn :
      HasLengths P
      → DhCommutes P
      → Decapsulates K
      → (initiator : Initiator P K E) (responder : Responder P K E) (ephemeral own : PrivateKey)
        (randomness : Bytes) (key : SecretKey) (message : InitialMessage) (a : Session)
      → Owns initiator responder
      → initiate_with P K E initiator
          (bundle P K E responder)
          ephemeral
          (encapsulate_with K responder.identity.kem randomness)
        ≡ ok (key, message)
      → initiator_with P key (public_key P responder.signed_prekey) own ≡ ok a
      → (respond P K E responder initiator.identity message ≡ ok key)
        × ((start : Key) × Turn P start 0 a (Ratchet.responder P key responder.signed_prekey))
  establishes-Turn L D A initiator responder ephemeral own randomness key message a owns sent
        started =
      elim (initiate_with-respond L D A initiator responder ephemeral randomness owns) [
        | inl (refused, _) ↦ absurd (cc)
        | inr (key', sent', received, _) ↦
            (cc, initiator_with-Turn P L D key responder.signed_prekey own a started)
      ]
