-- ===== src/X3dh/Outcomes.antt =====
-- What either party of X3DH can answer: a key of 32 bytes, or the refusal of a low-order point.
use quietwire.Base.{
  ◌≡◌, refl, ◌⊎◌, inl, inr, Option, none, some, List, [], ◌∷◌, ◌++◌, arith, length,
}
use quietwire.Base.{ok, err}
use quietwire.Bytes.{Bytes}
use quietwire.Crypto.{invalid_public_key, Primitives, HasLengths}
use quietwire.Crypto.Secret.{SecretKey, from_slice_lem}
use quietwire.Crypto.Kdf.{hkdf_sha512_total}
use quietwire.Crypto.X25519.{PrivateKey, PublicKey, public_key, diffie_hellman-cases}
use quietwire.Crypto.MlKem.{KemLibrary, decapsulate, Ciphertext}
use quietwire.Crypto.Ed25519.{SignatureLibrary}
use quietwire.X3dh.{
  InitialMessage, PrekeyBundle, IdentityPublic, Initiator, Responder, derive_shared_key, transcript,
  bundle, initiate_with, respond, exposed, curve25519_prefix, hybrid_info, initiator_dh4,
  responder_dh4,
}

module _ (P : Primitives) (K : KemLibrary) (E : SignatureLibrary) where
  derive_shared_key_total :
      HasLengths P
      → (secrets : List SecretKey) (transcript : Bytes)
      → (key : SecretKey) × (derive_shared_key P secrets transcript ≡ ok key)
        × (length key.expose_secret ≡ 32)
  unfolding derive_shared_key
  derive_shared_key_total L secrets transcript =
      let (okm, e, size) =
        hkdf_sha512_total P L (curve25519_prefix ++ exposed secrets) transcript hybrid_info 32
          (omega arith) in
      (record { expose_secret = okm }, ground (arith, from_slice_lem okm size), size)

  responder_dh4-cases :
      HasLengths P
      → (prekey : Option PrivateKey) (ephemeral : PublicKey)
      → (responder_dh4 P prekey ephemeral ≡ err invalid_public_key)
        ⊎ ((secrets : List SecretKey) × (responder_dh4 P prekey ephemeral ≡ ok secrets))
  responder_dh4-cases L none ephemeral = inr ([], refl)
  responder_dh4-cases L (some key) ephemeral = elim (diffie_hellman-cases P L key ephemeral) [
    | inl e ↦ inl (rw e)
    | inr (secret, e, size) ↦ inr (secret ∷ [], rw e)
  ]

  pub respond-cases :
      HasLengths P
      → (responder : Responder P K E) (initiator : IdentityPublic P K E) (message : InitialMessage)
      → (respond P K E responder initiator message ≡ err invalid_public_key)
        ⊎ ((key : SecretKey) × (respond P K E responder initiator message ≡ ok key)
            × (length key.expose_secret ≡ 32))
  unfolding respond
  respond-cases L responder initiator message =
      elim (diffie_hellman-cases P L responder.signed_prekey initiator.dh) [
        | inl e ↦ inl (ground arith)
        | inr (dh1, e1, _) ↦
            elim (diffie_hellman-cases P L responder.identity_dh message.ephemeral) [
              | inl e ↦ inl (ground arith)
              | inr (dh2, e2, _) ↦
                  elim (diffie_hellman-cases P L responder.signed_prekey message.ephemeral) [
                    | inl e ↦ inl (ground arith)
                    | inr (dh3, e3, _) ↦
                        elim (responder_dh4-cases L responder.one_time_prekey message.ephemeral) [
                          | inl e ↦ inl (ground arith)
                          | inr (dh4, e4) ↦
                              let (key, derived, size) =
                                derive_shared_key_total L
                                  ((dh1 ∷ dh2 ∷ dh3 ∷ [])
                                    ++ (dh4
                                        ++ (decapsulate K responder.kem message.kem_ciphertext
                                            ∷ [])))
                                  (transcript P K E initiator (bundle P K E responder) message) in
                              inr (key, ground (arith, derived), size)
                        ]
                  ]
            ]
      ]

  initiator_dh4-cases :
      HasLengths P
      → (ephemeral : PrivateKey) (prekey : Option PublicKey)
      → (initiator_dh4 P ephemeral prekey ≡ err invalid_public_key)
        ⊎ ((secrets : List SecretKey) × (initiator_dh4 P ephemeral prekey ≡ ok secrets))
  initiator_dh4-cases L ephemeral none = inr ([], refl)
  initiator_dh4-cases L ephemeral (some key) = elim (diffie_hellman-cases P L ephemeral key) [
    | inl e ↦ inl (rw e)
    | inr (secret, e, size) ↦ inr (secret ∷ [], rw e)
  ]

  -- Whatever bundle a peer publishes.
  pub initiate_with-cases :
      HasLengths P
      → (initiator : Initiator P K E) (bundle : PrekeyBundle P K E) (ephemeral : PrivateKey)
        (ciphertext : Ciphertext) (shared : SecretKey)
      → (initiate_with P K E initiator bundle ephemeral (ciphertext, shared)
          ≡ err invalid_public_key)
        ⊎ ((key : SecretKey) × (message : InitialMessage) × (initiate_with P K E initiator bundle
                ephemeral
                (ciphertext, shared)
              ≡ ok (key, message))
            × (length key.expose_secret ≡ 32))
  unfolding initiate_with
  initiate_with-cases L initiator bundle ephemeral ciphertext shared =
      elim (diffie_hellman-cases P L initiator.identity_dh bundle.signed_prekey) [
        | inl e ↦ inl (ground arith)
        | inr (dh1, e1, _) ↦ elim (diffie_hellman-cases P L ephemeral bundle.identity.dh) [
          | inl e ↦ inl (ground arith)
          | inr (dh2, e2, _) ↦ elim (diffie_hellman-cases P L ephemeral bundle.signed_prekey) [
            | inl e ↦ inl (ground arith)
            | inr (dh3, e3, _) ↦ elim (initiator_dh4-cases L ephemeral bundle.one_time_prekey) [
              | inl e ↦ inl (ground arith)
              | inr (dh4, e4) ↦
                  let message : InitialMessage = record {
                    ephemeral = public_key P ephemeral;
                    kem_ciphertext = ciphertext;
                  } in
                  let (key, derived, size) =
                    derive_shared_key_total L ((dh1 ∷ dh2 ∷ dh3 ∷ []) ++ (dh4 ++ (shared ∷ [])))
                      (transcript P K E initiator.identity bundle message) in
                  inr (key, message, ground (arith, derived), size)
            ]
          ]
        ]
      ]
