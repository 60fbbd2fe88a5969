-- ===== src/Ratchet/Session/Turns.antt =====
-- Turns: a frame that crosses a ratchet step, and the roles of the two sessions after it.
use quietwire.Base.{ℕ, suc, ◌≤◌, ◌≡◌, ap, sym, ◌∙◌, some, arith, length}
use quietwire.Base.{ok}
use quietwire.Bytes.{Bytes}
use quietwire.Crypto.{Primitives, HasLengths, OpensSealed, DhCommutes}
use quietwire.Crypto.Secret.{SecretKey}
use quietwire.Crypto.Aead.{Nonce}
use quietwire.Crypto.X25519.{PrivateKey, public_key}
use quietwire.Ratchet.{Key, SealedFrame, frame_len, plaintext_len, max_skip_per_chain}
use quietwire.Ratchet.Chain.{kdf_root, start}
use quietwire.Ratchet.Chain.Schedule.{advance}
use quietwire.Ratchet.Session.{Session, encrypt_with, decrypt_with, next_or_zero}
use quietwire.Ratchet.Session.Steps.{chain_at, kdf_root-length}
use quietwire.Ratchet.Session.Invariant.{IsValid}
use quietwire.Ratchet.Session.Encrypt.{Sent, encrypt_with-Sent}
use quietwire.Ratchet.Session.Delivery.{Follows}
use quietwire.Ratchet.Session.Exchange.{kdf_root_comm, Sent-IsFrame, IsReady, Turn}
use quietwire.Ratchet.Session.Exchange.Cross.{Crossed, cross}

module _ (P : Primitives) where
  -- The result of a turn: the frame, the sessions after it, and the roles changed.
  pub record Turned (start : Key) (n : ℕ) (a b : Session) (nonce : Nonce) (plaintext : Bytes)
      (own : PrivateKey) (sending_key : Key) : Type 0 where
    pub sealed : SealedFrame
    pub framed : length sealed.frame ≡ frame_len
    pub sender : Session
    pub receiver : Session
    pub encrypts : encrypt_with P nonce plaintext a ≡ (ok sealed, sender)
    pub decrypts : decrypt_with P sealed (ok own) b ≡ (ok plaintext, receiver)
    pub follows : Follows P start (public_key P a.own_ratchet) (suc n) receiver
    pub turn : Turn P sending_key 0 receiver sender

  -- When `a` has a new chain of which `b` has seen nothing, the frame that `a` encrypts next crosses
  -- the ratchet step at `b`: it decrypts to the plaintext, `b` follows the chain of `a` from then
  -- on, and the roles are exchanged: `b` has a new chain of which `a` has seen nothing. The chain has at most 1 000 frames before this one,
  -- `a` is valid, the plaintext has 396 bytes, the ratchet key that `b` draws is not refused, and `a`
  -- is ready for a chain under it. The
  -- libraries' lengths, the cipher's round trip and the commutation of Diffie-Hellman are assumed.
  pub turn_crosses :
      HasLengths P
      → OpensSealed P
      → DhCommutes P
      → (start : Key) (n : ℕ) (a b : Session) (nonce : Nonce) (plaintext : Bytes) (own : PrivateKey)
        (root : SecretKey) (sending_key : Key)
      → IsValid a
      → length plaintext ≡ plaintext_len
      → n ≤ max_skip_per_chain
      → Turn P start n a b
      → kdf_root P a.root_key own (public_key P a.own_ratchet) ≡ ok (root, sending_key)
      → IsReady P (public_key P own) (next_or_zero b.sending) a
      → Turned start n a b nonce plaintext own sending_key
  turn_crosses L O D start n a b nonce plaintext own root sending_key v hp hn t second ready =
      record {
        sealed = sealed;
        framed = sent.framed;
        sender = sender;
        receiver = crossed.after;
        encrypts = sent.result;
        decrypts = crossed.opens;
        follows = crossed.follows;
        turn = record {
          start_len = key_len;
          sends = crossed.sends;
          agreed =
              ap (λ k. kdf_root P a.root_key a.own_ratchet (public_key P k)) crossed.owns
              ∙ kdf_root_comm P D a.root_key a.own_ratchet own
              ∙ second
              ∙ ap (λ r. ok (r, sending_key)) (sym crossed.root_key);
          ready =
              rw (crossed.owns, crossed.previous_len)
                (record {
                  fresh = ready.fresh;
                  none_kept = ready.none_kept;
                  caught_up = ready.caught_up;
                });
        };
      }
    where
      sent :
          Sent P nonce plaintext a
            (chain_at (advance P start n) n)
            (encrypt_with P nonce plaintext a)
      sent =
          encrypt_with-Sent P L O nonce plaintext a (chain_at (advance P start n) n) v hp t.sends
            (omega arith)

      sealed : SealedFrame
      sealed = record { nonce = nonce; frame = sent.frame }

      sender : Session
      sender = record a { sending = some (chain_at (advance P (advance P start n) 1) (suc n)) }

      key_len : length sending_key ≡ 32
      key_len =
          (kdf_root-length P L a.root_key own (public_key P a.own_ratchet) root sending_key
            second).1

      crossed : Crossed P L start n a b own sealed plaintext root sending_key
      crossed =
          cross P L start n a b own sealed plaintext root sending_key hn t
            (Sent-IsFrame P start n nonce plaintext a _ sent)
            (ap (λ h. h.previous_chain_len) sent.header) key_len second
