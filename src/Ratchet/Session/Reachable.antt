-- ===== src/Ratchet/Session/Reachable.antt =====
-- Every session that the operations of `Session` can lead to.
use quietwire.Base.{◌≡◌, ◌≢◌, subst, inl, inr, length}
use quietwire.Base.{Result, ok, panic}
use quietwire.Bytes.{Bytes}
use quietwire.Crypto
use quietwire.Crypto.{Primitives, HasLengths, OpensSealed}
use quietwire.Crypto.Secret.{SecretKey}
use quietwire.Crypto.Aead.{Nonce}
use quietwire.Crypto.X25519.{PrivateKey, PublicKey}
use quietwire.Ratchet.{Error, SealedFrame, frame_len, plaintext_len}
use quietwire.Ratchet.Session.{Session, initiator_with, responder, encrypt_with, decrypt_with}
use quietwire.Ratchet.Session.Invariant.{IsValid}
use quietwire.Ratchet.Session.Encrypt.{encrypt_with-IsValid}
use quietwire.Ratchet.Session.Atomicity.{Atomic, decrypt_with-Atomic}
use quietwire.Ratchet.Session.Start.{initiator_with-IsValid, responder-IsValid}

module _ (P : Primitives) where
  -- The sessions that start as the initiator or the responder and then send and receive, whether the
  -- calls succeed or not.
  pub data Reachable : Session → Type 0 where
    initiated :
        (shared_key : SecretKey) (remote : PublicKey) (own : PrivateKey) (a : Session)
        → initiator_with P shared_key remote own ≡ ok a
        → Reachable a
    responded :
        (shared_key : SecretKey) (signed_prekey : PrivateKey)
        → length shared_key.expose_secret ≡ 32
        → Reachable (responder P shared_key signed_prekey)
    sent :
        (nonce : Nonce) (plaintext : Bytes) (s : Session)
        → length plaintext ≡ plaintext_len
        → Reachable s
        → Reachable (encrypt_with P nonce plaintext s).1
    received :
        (sealed : SealedFrame) (next_ratchet : Result Crypto.Error PrivateKey) (s : Session)
        → length sealed.frame ≡ frame_len
        → next_ratchet ≢ panic
        → Reachable s
        → Reachable (decrypt_with P sealed next_ratchet s).1

  module _ (L : HasLengths P) (O : OpensSealed P) where
    pub Atomic-IsValid :
        (s : Session) (r : Result Error Bytes × Session) → IsValid s → Atomic s r → IsValid r.1
    Atomic-IsValid s r v (inl (e, refused)) = rw refused v
    Atomic-IsValid s r v (inr (plaintext, _, _, after)) = after

    initiated-IsValid :
        (shared_key : SecretKey) (remote : PublicKey) (own : PrivateKey) (a : Session)
        → initiator_with P shared_key remote own ≡ ok a
        → IsValid a
    initiated-IsValid shared_key remote own a e =
        elim (initiator_with-IsValid P L shared_key remote own) [
          | inl refused ↦ absurd (cc)
          | inr (a', e', v) ↦ let same : a' ≡ a = cc in subst IsValid same v
        ]

    -- Every session that is reached from its start by sending and receiving, in any order and with
    -- any frames, is valid: the chains are within their limit, at most 10 000 skipped keys are held and
    -- at most 1 000 of one chain, and every key has 32 bytes. The shared key has 32 bytes, plaintexts
    -- 396 and frames 452; the libraries' lengths and the cipher's round trip are assumed.
    pub Reachable-IsValid : (s : Session) → Reachable s → IsValid s
    Reachable-IsValid s (initiated shared_key remote own a e) =
        initiated-IsValid shared_key remote own s e
    Reachable-IsValid _ (responded shared_key signed_prekey h) =
        responder-IsValid P shared_key signed_prekey h
    Reachable-IsValid _ (sent nonce plaintext s h r) =
        encrypt_with-IsValid P L O nonce plaintext s (Reachable-IsValid s r) h
    Reachable-IsValid _ (received sealed next_ratchet s h drawn r) =
        Atomic-IsValid s (decrypt_with P sealed next_ratchet s) (Reachable-IsValid s r)
          (decrypt_with-Atomic P L sealed h next_ratchet drawn s (Reachable-IsValid s r))
