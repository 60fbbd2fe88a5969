-- ===== src/X3dh/Binding.antt =====
-- What the transcript of an exchange binds: everything that the two parties show each other.
mod Tests
use quietwire.Base.{
  ◌≡◌, ◌≢◌, refl, sym, ap, ◌∙◌, ◌⊎◌, inl, inr, Option, none, some, ◌++◌, arith, length,
  length-append, append-split, Bool-cases, true, false,
}
use quietwire.Bytes.{Bytes, beq, beq_refl, beq→eq}
use quietwire.Crypto.{Primitives}
use quietwire.Crypto.Hash.{derive_key}
use quietwire.Crypto.X25519.{PublicKey, public_key_len}
use quietwire.Crypto.MlKem
use quietwire.Crypto.MlKem.{KemLibrary, encapsulation_key_len, ciphertext_len}
use quietwire.Crypto.Ed25519
use quietwire.Crypto.Ed25519.{SignatureLibrary, verifying_key_len}
use quietwire.X3dh.{
  transcript_context, InitialMessage, prekey_bytes, IdentityPublic, identity_bytes, PrekeyBundle,
  transcript_input, transcript,
}

abbrev pub IsPrekey : Option PublicKey → Type 0
IsPrekey none = Unit {0}
IsPrekey (some key) = length key.as_bytes ≡ public_key_len

module _ (P : Primitives) (K : KemLibrary) (E : SignatureLibrary) where
  -- An identity as its types have it: each key with its length.
  pub record IsIdentity (identity : IdentityPublic P K E) : Type 0 where
    pub sign_len : length (Ed25519.to_bytes E identity.sign) ≡ verifying_key_len
    pub dh_len : length identity.dh.as_bytes ≡ public_key_len
    pub kem_len : length (MlKem.to_bytes K identity.kem) ≡ encapsulation_key_len

  -- What the two parties show each other.
  pub record IsExchange (initiator : IdentityPublic P K E) (bundle : PrekeyBundle P K E)
      (message : InitialMessage) : Type 0 where
    pub initiator_is : IsIdentity initiator
    pub responder_is : IsIdentity bundle.identity
    pub ephemeral_len : length message.ephemeral.as_bytes ≡ public_key_len
    pub signed_len : length bundle.signed_prekey.as_bytes ≡ public_key_len
    pub prekey : IsPrekey bundle.one_time_prekey
    pub ciphertext_is : length message.kem_ciphertext.as_bytes ≡ ciphertext_len

  pub record SameIdentity (a b : IdentityPublic P K E) : Type 0 where
    pub sign : Ed25519.to_bytes E a.sign ≡ Ed25519.to_bytes E b.sign
    pub dh : a.dh ≡ b.dh
    pub kem : MlKem.to_bytes K a.kem ≡ MlKem.to_bytes K b.kem

  pub record SameExchange (a : IdentityPublic P K E) (b : PrekeyBundle P K E) (m : InitialMessage)
      (a' : IdentityPublic P K E) (b' : PrekeyBundle P K E) (m' : InitialMessage) : Type 0 where
    pub initiator : SameIdentity a a'
    pub responder : SameIdentity b.identity b'.identity
    pub ephemeral : m.ephemeral ≡ m'.ephemeral
    pub signed_prekey : b.signed_prekey ≡ b'.signed_prekey
    pub one_time_prekey : b.one_time_prekey ≡ b'.one_time_prekey
    pub kem_ciphertext : m.kem_ciphertext ≡ m'.kem_ciphertext

  -- The inputs of the two transcripts are not the same, and their hashes are.
  pub record Collide (a : IdentityPublic P K E) (b : PrekeyBundle P K E) (m : InitialMessage)
      (a' : IdentityPublic P K E) (b' : PrekeyBundle P K E) (m' : InitialMessage) : Type 0 where
    pub differ : transcript_input P K E a b m ≢ transcript_input P K E a' b' m'
    pub hash :
        derive_key P transcript_context (transcript_input P K E a b m)
        ≡ derive_key P transcript_context (transcript_input P K E a' b' m')

  same_key : (x y : PublicKey) → x.as_bytes ≡ y.as_bytes → x ≡ y
  same_key x y e = λ i. record { as_bytes = e i }

  identity_bytes-SameIdentity :
      (a b : IdentityPublic P K E)
      → IsIdentity a
      → IsIdentity b
      → identity_bytes P K E a ≡ identity_bytes P K E b
      → SameIdentity a b
  unfolding identity_bytes
  identity_bytes-SameIdentity a b ha hb e =
      let (sign, rest) = append-split _ _ _ _ (ha.sign_len ∙ sym hb.sign_len) e in
      let (dh, kem) = append-split _ _ _ _ (ha.dh_len ∙ sym hb.dh_len) rest in
      record { sign = sign; dh = same_key a.dh b.dh dh; kem = kem }

  length-identity_bytes :
      (a b : IdentityPublic P K E)
      → IsIdentity a
      → IsIdentity b
      → length (identity_bytes P K E a) ≡ length (identity_bytes P K E b)
  unfolding identity_bytes
  length-identity_bytes a b ha hb = omega (
    arith,
    ha.sign_len,
    ha.dh_len,
    ha.kem_len,
    hb.sign_len,
    hb.dh_len,
    hb.kem_len,
    length-append a.dh.as_bytes (MlKem.to_bytes K a.kem),
    length-append b.dh.as_bytes (MlKem.to_bytes K b.kem),
    length-append (Ed25519.to_bytes E a.sign) (a.dh.as_bytes ++ MlKem.to_bytes K a.kem),
    length-append (Ed25519.to_bytes E b.sign) (b.dh.as_bytes ++ MlKem.to_bytes K b.kem),
  )

  -- Whether there is a one-time prekey shows in the length.
  prekey_bytes-same :
      (x y : Option PublicKey) (c c' : Bytes)
      → IsPrekey x
      → IsPrekey y
      → length c ≡ length c'
      → prekey_bytes x ++ c ≡ prekey_bytes y ++ c'
      → (x ≡ y) × (c ≡ c')
  prekey_bytes-same none none c c' hx hy h e = (refl, e)
  prekey_bytes-same none (some y) c c' hx hy h e =
      absurd (omega (arith, hy, h, ap length e, length-append y.as_bytes c'))
  prekey_bytes-same (some x) none c c' hx hy h e =
      absurd (omega (arith, hx, h, ap length e, length-append x.as_bytes c))
  prekey_bytes-same (some x) (some y) c c' hx hy h e =
      let (key, rest) = append-split _ _ _ _ (hx ∙ sym hy) e in (ap some (same_key x y key), rest)

  -- The input leaves nothing out: it fixes all that the parties show each other.
  transcript_input-SameExchange :
      (a a' : IdentityPublic P K E) (b b' : PrekeyBundle P K E) (m m' : InitialMessage)
      → IsExchange a b m
      → IsExchange a' b' m'
      → transcript_input P K E a b m ≡ transcript_input P K E a' b' m'
      → SameExchange a b m a' b' m'
  unfolding transcript_input
  transcript_input-SameExchange a a' b b' m m' h h' e =
      let (first, e1) =
        append-split _ _ _ _ (length-identity_bytes a a' h.initiator_is h'.initiator_is) e in
      let (second, e2) =
        append-split _ _ _ _
          (length-identity_bytes b.identity b'.identity h.responder_is h'.responder_is) e1 in
      let (ephemeral, e3) = append-split _ _ _ _ (h.ephemeral_len ∙ sym h'.ephemeral_len) e2 in
      let (signed, e4) = append-split _ _ _ _ (h.signed_len ∙ sym h'.signed_len) e3 in
      let (prekey, ciphertext) =
        prekey_bytes-same b.one_time_prekey b'.one_time_prekey _ _ h.prekey h'.prekey
          (h.ciphertext_is ∙ sym h'.ciphertext_is) e4 in
      record {
        initiator = identity_bytes-SameIdentity a a' h.initiator_is h'.initiator_is first;
        responder =
            identity_bytes-SameIdentity b.identity b'.identity h.responder_is h'.responder_is
              second;
        ephemeral = same_key m.ephemeral m'.ephemeral ephemeral;
        signed_prekey = same_key b.signed_prekey b'.signed_prekey signed;
        one_time_prekey = prekey;
        kem_ciphertext = λ i. record { as_bytes = ciphertext i };
      }

  -- Two exchanges with the same transcript agree in all that the parties show each other, both
  -- identities, the prekeys, whether there is a one-time one, the ephemeral key and the ciphertext;
  -- or the hash inputs of these two exchanges are a collision: they differ and have the same hash.
  -- Each key has the length of its type.
  pub transcript-SameExchange :
      (a a' : IdentityPublic P K E) (b b' : PrekeyBundle P K E) (m m' : InitialMessage)
      → IsExchange a b m
      → IsExchange a' b' m'
      → transcript P K E a b m ≡ transcript P K E a' b' m'
      → SameExchange a b m a' b' m' ⊎ Collide a b m a' b' m'
  unfolding transcript
  transcript-SameExchange a a' b b' m m' h h' e =
      elim (Bool-cases (beq (transcript_input P K E a b m) (transcript_input P K E a' b' m'))) [
        | inl same ↦ inl (transcript_input-SameExchange a a' b b' m m' h h' (beq→eq _ _ same))
        | inr other ↦ inr (record { differ = apart other; hash = e })
      ]
    where
      apart : {x y : Bytes} → beq x y ≡ false → x ≢ y
      apart {x} {y} other same =
          let here : beq x y ≡ true = ap (beq x) (sym same) ∙ beq_refl x in absurd (cc)
