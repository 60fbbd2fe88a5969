-- ===== src/X3dh/Conversation.antt =====
-- From the key exchange to a whole conversation of the ratchet.
use quietwire.Base.{◌≤◌, ◌≡◌, inl, inr, List, [], ◌∷◌, map, length, subst}
use quietwire.Base.{ok}
use quietwire.Bytes.{Bytes}
use quietwire.Crypto.{Primitives, HasLengths, OpensSealed, DhCommutes}
use quietwire.Crypto.Secret.{SecretKey}
use quietwire.Crypto.X25519.{PrivateKey, public_key}
use quietwire.Crypto.MlKem.{KemLibrary, Decapsulates, encapsulate_with}
use quietwire.Crypto.Ed25519.{SignatureLibrary}
use quietwire.Ratchet.Session.{Session, initiator_with}
use quietwire.Ratchet.Session as Ratchet
use quietwire.Ratchet.Session.Conversing.{Round, due_in, frames_sent, converse, AreRounds}
use quietwire.Ratchet.Session.Conversing.Conversation.{conversation_due}
use quietwire.X3dh.{InitialMessage, Initiator, Responder, bundle, initiate_with, respond}
use quietwire.X3dh.Agreement.{Owns, initiate_with-respond}

module _ (P : Primitives) (K : KemLibrary) (E : SignatureLibrary) where
  -- From the key exchange to a whole conversation. When the initiator derives a key from the
  -- responder's bundle and starts a ratchet session with it, the responder derives the same key, and the
  -- two sessions converse: in turns, of any number, each party sends plaintexts in a row on a new chain
  -- and its peer receives the frames in any order, any of them lost or repeated, but at least one in each
  -- turn. In every turn each frame is answered with its plaintext when it first arrives and refused as
  -- not authentic whenever it comes again. Plaintexts have 396 bytes, the whole conversation has at
  -- most 500 frames, and each ratchet key drawn is new and not refused. The public identities belong to
  -- the private keys; the libraries' lengths, the cipher's round trip, the commutation of
  -- Diffie-Hellman and the correctness of ML-KEM are assumed.
  pub exchange_converses :
      HasLengths P
      → OpensSealed P
      → DhCommutes P
      → Decapsulates K
      → (initiator : Initiator P K E) (responder : Responder P K E) (ephemeral own : PrivateKey)
        (randomness : Bytes) (key : SecretKey) (message : InitialMessage) (a : Session)
        (ts : List Round)
      → Owns P K E initiator responder
      → initiate_with P K E initiator
          (bundle P K E responder)
          ephemeral
          (encapsulate_with K responder.identity.kem randomness)
        ≡ ok (key, message)
      → initiator_with P key (public_key P responder.signed_prekey) own ≡ ok a
      → AreRounds P
          (public_key P own ∷ public_key P responder.signed_prekey ∷ [])
          ts
          a
          (Ratchet.responder P key responder.signed_prekey)
      → frames_sent ts ≤ 500
      → (respond P K E responder initiator.identity message ≡ ok key)
        × (converse P ts a (Ratchet.responder P key responder.signed_prekey) ≡ map due_in ts)
  exchange_converses L O D A initiator responder ephemeral own randomness key message a ts owns sent
        started rounds few =
      elim (initiate_with-respond P K E L D A initiator responder ephemeral randomness owns) [
        | inl (refused, _) ↦ absurd (cc)
        | inr (key', sent', received, size) ↦
            let same : key' ≡ key = cc in
            (
              cc,
              conversation_due P L O D key responder.signed_prekey own a ts
                  (subst (λ (k : SecretKey). length k.expose_secret ≡ 32) same size) started rounds
                  few,
            )
      ]
