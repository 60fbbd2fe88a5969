-- ===== src/Ratchet/Session/Exchange.antt =====
-- Two sessions that talk: the state in which one of them has a new chain.
pub mod Cross
use quietwire.Base.{
  ℕ, ◌+◌, ◌-◌, ◌≤◌, ◌≡◌, refl, ap, subst, ◌∙◌, Option, none, some, List, [], ◌∷◌, arith, length,
  All, false,
}
use quietwire.Base.{Result, ok}
use quietwire.Bytes.{Bytes}
use quietwire.Crypto.{Primitives, DhCommutes}
use quietwire.Crypto.Secret.{SecretKey}
use quietwire.Crypto.Aead.{Nonce}
use quietwire.Crypto.X25519.{PrivateKey, PublicKey, public_key, diffie_hellman_comm}
use quietwire.Ratchet.{Key, Error, SealedFrame, chain_limit, max_skip_per_chain}
use quietwire.Ratchet.Header.{Header}
use quietwire.Ratchet.Chain.{Chain, Cursor, at, kdf_root, kdf_chain, start}
use quietwire.Ratchet.Chain.Schedule.{
  advance, message_key_at, advance-add, skipped_by, skip_to_lem, length-keys_from,
}
use quietwire.Ratchet.Skipped.{SkippedKey, same_ratchet}
use quietwire.Ratchet.Skipped.Position.{NotFor}
use quietwire.Ratchet.Session.{Session, is_remote, open_frame, skip_previous}
use quietwire.Ratchet.Session.Steps.{chain_at}
use quietwire.Ratchet.Session.Encrypt.{Sent}
use quietwire.Ratchet.Session.Delivery.{IsFrame}

module _ (P : Primitives) where
  -- Both ends of a root step agree when each uses its private key and the other's public one.
  pub kdf_root_comm :
      DhCommutes P
      → (root : SecretKey) (x y : PrivateKey)
      → kdf_root P root x (public_key P y) ≡ kdf_root P root y (public_key P x)
  unfolding kdf_root
  kdf_root_comm D root x y = rw (diffie_hellman_comm P D x y)

  -- What a sender at number `n` of its chain sends is the chain's frame `n`.
  pub Sent-IsFrame :
      (start : Key) (n : ℕ) (nonce : Nonce) (plaintext : Bytes) (s : Session)
      (r : Result Error SealedFrame × Session)
      (sent : Sent P nonce plaintext s (chain_at (advance P start n) n) r)
      → IsFrame P start
          (public_key P s.own_ratchet)
          n
          plaintext
          (record { nonce = nonce; frame = sent.frame })
  Sent-IsFrame start n nonce plaintext s r sent = record {
    from = ap (λ h. h.ratchet) sent.header;
    number = ap (λ h. h.message_number) sent.header;
    opens = subst (λ k. open_frame P k sealed ≡ ok plaintext) same sent.opens;
  }
    where
      sealed : SealedFrame
      sealed = record { nonce = nonce; frame = sent.frame }

      sum : n + 0 ≡ n
      sum = omega arith

      same : message_key_at P (advance P start n) 0 ≡ message_key_at P start n
      same =
          unfold message_key_at in
          ap (λ k. (kdf_chain P k).0) (advance-add P start n 0 ∙ ap (advance P start) sum)

  -- The receiver has come near enough to the end of the sender's previous chain.
  abbrev pub CatchesUp : Option Chain → ℕ → Type 0
  CatchesUp none until = Unit {0}
  CatchesUp (some chain) until =
      (chain.next ≤ chain_limit) × (until ≤ chain_limit) × (until - chain.next ≤ max_skip_per_chain)

  -- The keys that the receiver keeps of the sender's previous chain.
  abbrev pub keys_of : Option Cursor → List (ℕ × Key)
  keys_of none = []
  keys_of (some previous) = previous.skipped

  pub CatchesUp-skip_previous :
      (receiving : Option Chain) (until : ℕ)
      → CatchesUp receiving until
      → (previous : Option Cursor) × (skip_previous P receiving until ≡ ok previous)
        × (length (keys_of previous) ≤ until)
  unfolding at
  CatchesUp-skip_previous none until h = (none, refl, omega arith)
  CatchesUp-skip_previous (some chain) until h = (
    some (skipped_by P (at chain) (until - chain.next)),
    rw (skip_to_lem P (at chain) until h.0 h.1 h.2),
    omega (arith, length-keys_from P chain.key.expose_secret chain.next (until - chain.next)),
  )

  -- What a receiver must meet before a chain of `ratchet` whose predecessor had `until` frames.
  pub record IsReady (ratchet : PublicKey) (until : ℕ) (s : Session) : Type 0 where
    pub fresh : is_remote s.remote_ratchet ratchet ≡ false
    pub none_kept : All (λ k. same_ratchet k.ratchet ratchet ≡ false) s.skipped
    pub caught_up : CatchesUp s.receiving until

  -- `a` has a new chain, started with `start` and `n` frames long, of which `b` has seen nothing.
  pub record Turn (start : Key) (n : ℕ) (a b : Session) : Type 0 where
    pub start_len : length start ≡ 32
    pub sends : a.sending ≡ some (chain_at (advance P start n) n)
    pub agreed :
        kdf_root P b.root_key b.own_ratchet (public_key P a.own_ratchet) ≡ ok (a.root_key, start)
    pub ready : IsReady (public_key P a.own_ratchet) a.previous_sending_len b

  pub fresh-position :
      (h : Header) (ks : List SkippedKey)
      → All (λ k. same_ratchet k.ratchet h.ratchet ≡ false) ks
      → All (NotFor h) ks
  fresh-position h [] v = tt
  fresh-position h (k ∷ ks) v = (rw v.0, fresh-position h ks v.1)
