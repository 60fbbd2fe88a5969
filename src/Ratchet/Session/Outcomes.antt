-- ===== src/Ratchet/Session/Outcomes.antt =====
-- Every outcome of the three ways to decrypt: a refusal that leaves the session alone, or the
-- plaintext with the new session written out.
use quietwire.Base.{
  ℕ, suc, ◌+◌, ◌≤◌, ◌<◌, ◌≡◌, ◌⊎◌, inl, inr, some, arith, length, Option-cases, subst,
}
use quietwire.Base.{Result, ok, err}
use quietwire.Bytes.{Bytes}
use quietwire.Crypto.{Primitives, HasLengths, authentication}
use quietwire.Ratchet.{
  Error, crypto, SealedFrame, frame_len, chain_limit, max_skip_per_chain, plaintext_len,
}
use quietwire.Ratchet.Header.{Header}
use quietwire.Ratchet.Chain.{Chain, at}
use quietwire.Ratchet.Chain.Schedule.{advance, message_key_at, keys_from}
use quietwire.Ratchet.Chain.Keys.{length-message_key_at, length-advance}
use quietwire.Ratchet.Chain.MessageKey.{taken, message_key-cases}
use quietwire.Ratchet.Skipped.{extend}
use quietwire.Ratchet.Session.{Session, open_frame, decrypt_in_receiving_chain}
use quietwire.Ratchet.Session.Steps.{chain_at, into_chain_lem, open_frame-cases}
use quietwire.Ratchet.Session.Invariant.{IsChain, IsChain?, IsValid}

abbrev pub Refused : {A : Type 0} → Session → Result Error A × Session → Type 0
Refused s r = (e : Error) × (r ≡ (err e, s))

module _ (P : Primitives) where
  -- The plaintext and the session of a frame read with a key of the receiving chain.
  pub record InChain (header : Header) (sealed : SealedFrame) (s : Session)
      (r : Result Error Bytes × Session) : Type 0 where
    pub chain : Chain
    pub ahead : ℕ
    pub plaintext : Bytes
    pub receiving : s.receiving ≡ some chain
    pub number : header.message_number ≡ chain.next + ahead
    pub within : header.message_number < chain_limit
    pub near : ahead ≤ max_skip_per_chain
    pub opened : open_frame P (message_key_at P chain.key.expose_secret ahead) sealed ≡ ok plaintext
    pub size : length plaintext ≡ plaintext_len
    pub result : r ≡ (
      ok plaintext,
      record s {
        skipped =
            extend header.ratchet (keys_from P chain.key.expose_secret chain.next ahead) s.skipped;
        receiving =
            some
              (chain_at (advance P chain.key.expose_secret (suc ahead)) (suc (chain.next + ahead)));
      },
    )

  module _ (L : HasLengths P) (header : Header) (sealed : SealedFrame)
      (framed : length sealed.frame ≡ frame_len) where
    in_chain :
        (s : Session) (chain : Chain)
        → IsChain chain
        → s.receiving ≡ some chain
        → let r = decrypt_in_receiving_chain P header sealed s in
          Refused s r ⊎ InChain header sealed s r
    unfolding decrypt_in_receiving_chain at
    in_chain s chain v e = elim (message_key-cases P (at chain) header.message_number v.within) [
      | inl (x, refused) ↦ inl (x, ground arith)
      | inr (m, number, within, near, derived) ↦
          elim (open_frame-cases P L (message_key_at P chain.key.expose_secret m) sealed
            (length-message_key_at P L chain.key.expose_secret m) framed) [
              | inl refused ↦ inl (crypto authentication, ground arith)
              | inr (plaintext, opened, size) ↦ inr (record {
                chain = chain;
                ahead = m;
                plaintext = plaintext;
                receiving = e;
                number = number;
                within = within;
                near = near;
                opened = opened;
                size = size;
                result = ground (
                  arith,
                  into_chain_lem (taken P (at chain) m)
                      (length-advance P L chain.key.expose_secret (suc m) v.key_len),
                );
              })
            ]
    ]

    pub in_receiving_chain :
        (s : Session)
        → IsValid s
        → let r = decrypt_in_receiving_chain P header sealed s in
          Refused s r ⊎ InChain header sealed s r
    in_receiving_chain s v = elim (Option-cases s.receiving) [
      | inl e ↦ inl (crypto authentication, unfold decrypt_in_receiving_chain in ground arith)
      | inr (chain, e) ↦ in_chain s chain (subst IsChain? e v.receives) e
    ]
