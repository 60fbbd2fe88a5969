-- ===== src/X3dh/Binding/Tests.antt =====
-- The theorem about the transcript, applied to two exchanges that differ.
use quietwire.Base.{ℕ, ◌≡◌, refl, ◌⊎◌, none, replicate}
use quietwire.Crypto.Hash.{derive_key}
use quietwire.Crypto.X25519.{PublicKey}
use quietwire.Crypto.MlKem
use quietwire.Crypto.Ed25519
use quietwire.X3dh.{
  IdentityPublic, PrekeyBundle, InitialMessage, identity_bytes, transcript_input, transcript,
}
use quietwire.X3dh.Binding.{IsIdentity, IsExchange, SameExchange, Collide, transcript-SameExchange}
use quietwire.Toy.{toy, toy_kem, toy_signature, digest}

abbrev public : ℕ → PublicKey
public n = record { as_bytes = replicate 32 n }

abbrev identity : ℕ → IdentityPublic toy toy_kem toy_signature
identity n = record {
  sign = record { inner = replicate 32 n };
  dh = public n;
  kem = record { inner = replicate 1184 n };
}

abbrev prekeys : ℕ → PrekeyBundle toy toy_kem toy_signature
prekeys n = record { identity = identity 2; signed_prekey = public n; one_time_prekey = none }

abbrev message : ℕ → InitialMessage
message n = record { ephemeral = public n; kem_ciphertext = record { as_bytes = replicate 1088 5 } }

identity-IsIdentity : (n : ℕ) → IsIdentity toy toy_kem toy_signature (identity n)
unfolding Ed25519.to_bytes MlKem.to_bytes
identity-IsIdentity n = record { sign_len = refl; dh_len = refl; kem_len = refl }

exchanged : (m n : ℕ) → IsExchange toy toy_kem toy_signature (identity 1) (prekeys m) (message n)
exchanged m n = record {
  initiator_is = identity-IsIdentity 1;
  responder_is = identity-IsIdentity 2;
  ephemeral_len = refl;
  signed_len = refl;
  prekey = tt;
  ciphertext_is = refl;
}

-- The toy hash does not see the order of its bytes.
same_transcript :
    transcript toy toy_kem toy_signature (identity 1) (prekeys 3) (message 4)
    ≡ transcript toy toy_kem toy_signature (identity 1) (prekeys 4) (message 3)
unfolding transcript transcript_input identity_bytes derive_key digest Ed25519.to_bytes
    MlKem.to_bytes
same_transcript = refl

transcript-SameExchange_example :
    SameExchange toy toy_kem toy_signature
      (identity 1)
      (prekeys 3)
      (message 4)
      (identity 1)
      (prekeys 4)
      (message 3)
    ⊎ Collide toy toy_kem toy_signature
        (identity 1)
        (prekeys 3)
        (message 4)
        (identity 1)
        (prekeys 4)
        (message 3)
transcript-SameExchange_example =
    transcript-SameExchange toy toy_kem toy_signature (identity 1) (identity 1) (prekeys 3)
      (prekeys 4) (message 4) (message 3) (exchanged 3 4) (exchanged 4 3) same_transcript
