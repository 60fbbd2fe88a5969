-- ===== src/Ratchet/Session/Replay.antt =====
-- A frame that a chain opened is refused when it comes again.
use quietwire.Base.{
  suc, ◌+◌, ◌<◌, ◌≡◌, ◌≢◌, refl, ap, subst, ◌∙◌, Option, none, some, List, arith, length, true,
  false,
}
use quietwire.Base.{Result, ok, err, panic}
use quietwire.Bytes.{Bytes, beq_refl}
use quietwire.Crypto
use quietwire.Crypto.{Primitives, HasLengths, authentication}
use quietwire.Crypto.X25519.{PrivateKey, PublicKey}
use quietwire.Ratchet.{Key, Error, crypto, SealedFrame, frame_len, chain_limit}
use quietwire.Ratchet.Header.{Header, parse}
use quietwire.Ratchet.Chain.{Chain, Cursor, at}
use quietwire.Ratchet.Chain.Schedule.{advance, keys_from}
use quietwire.Ratchet.Chain.Keys.{keys_from-lt}
use quietwire.Ratchet.Chain.MessageKey.{message_key_past}
use quietwire.Ratchet.Skipped.{SkippedKey, position}
use quietwire.Ratchet.Skipped.Position.{position-extend_other, position-extend_lower}
use quietwire.Ratchet.Session.{
  Session, is_remote, decrypt_with, decrypt_in_receiving_chain, extend_previous,
}
use quietwire.Ratchet.Session.Steps.{chain_at}
use quietwire.Ratchet.Session.Invariant.{IsValid}
use quietwire.Ratchet.Session.Decrypt.{
  Outcome, refused, from_skipped, in_chain, stepped, as_in_chain, decrypt_with-Outcome,
}

module _ (P : Primitives) where
  -- A session that is past the frame's number in its chain, and kept no key for it.
  pub record IsPast (header : Header) (s : Session) : Type 0 where
    pub none_kept : position s.skipped header ≡ none
    pub same_chain : is_remote s.remote_ratchet header.ratchet ≡ true
    pub chain : Chain
    pub receiving : s.receiving ≡ some chain
    pub past : header.message_number < chain.next
    pub within : header.message_number < chain_limit

  pub decrypt_with_past :
      (sealed : SealedFrame) (next_ratchet : Result Crypto.Error PrivateKey) (s : Session)
      → IsPast (parse sealed.frame) s
      → decrypt_with P sealed next_ratchet s ≡ (err (crypto authentication), s)
  decrypt_with_past sealed next_ratchet s v =
      as_in_chain P sealed next_ratchet s v.none_kept v.same_chain
      ∙ unfold decrypt_in_receiving_chain at in
        ground (
          arith,
          v.receiving,
          message_key_past P (at v.chain) (parse sealed.frame).message_number v.within v.past,
        )

  pub previous_keys :
      (header : Header) (receiving : Option Chain) (previous : Option Cursor)
      (remote : Option PublicKey) (ks : List SkippedKey)
      → is_remote remote header.ratchet ≡ false
      → position ks header ≡ none
      → position (extend_previous P previous remote ks) header ≡ none
  previous_keys header receiving none remote ks other e = e
  previous_keys header receiving (some previous) none ks other e = e
  previous_keys header receiving (some previous) (some r) ks other e =
      position-extend_other header r previous.skipped ks e other

  -- When a frame for which no skipped key was kept opens, the session is past it afterwards.
  opened-IsPast :
      (sealed : SealedFrame) (next_ratchet : Result Crypto.Error PrivateKey) (s : Session)
      (r : Result Error Bytes × Session) (plaintext : Bytes)
      → position s.skipped (parse sealed.frame) ≡ none
      → r.0 ≡ ok plaintext
      → Outcome P sealed next_ratchet s r
      → IsPast (parse sealed.frame) r.1
  opened-IsPast sealed next_ratchet s r plaintext e opened (refused (x, failed)) =
      let status : r.0 ≡ err x = ap (λ t. t.0) failed in cc
  opened-IsPast sealed next_ratchet s r plaintext e opened (from_skipped index found f) =
      absurd (cc)
  opened-IsPast sealed next_ratchet s r plaintext e opened (in_chain _ t f) = rw f.result (record {
    none_kept =
        position-extend_lower header header.ratchet (keys_from P key f.chain.next f.ahead) s.skipped
          e
          (keys_from-lt P key f.chain.next f.ahead header.message_number (omega (arith, f.number)));
    same_chain = t;
    chain = chain_at (advance P key (suc f.ahead)) (suc (f.chain.next + f.ahead));
    receiving = refl;
    past = omega (arith, f.number);
    within = f.within;
  })
    where
      header : Header
      header = parse sealed.frame

      key : Key
      key = f.chain.key.expose_secret
  opened-IsPast sealed next_ratchet s r plaintext e opened (stepped _ t f) = rw f.result (record {
    none_kept =
        position-extend_lower header header.ratchet
          (keys_from P f.receiving_key 0 header.message_number) _
          (previous_keys header s.receiving f.previous s.remote_ratchet s.skipped t e)
          (keys_from-lt P f.receiving_key 0 header.message_number header.message_number
            (omega arith));
    same_chain = beq_refl header.ratchet.as_bytes;
    chain =
        chain_at (advance P f.receiving_key (suc header.message_number))
          (suc header.message_number);
    receiving = refl;
    past = omega arith;
    within = f.within;
  })
    where
      header : Header
      header = parse sealed.frame

  -- A frame that opened with a key of its chain, and not with a skipped one, opens only once: when
  -- it comes again it is refused as not authentic and the session stays as it is, whatever ratchet
  -- key could be drawn. The session is valid, the frame has 452 bytes and the generator did not panic
  -- at first; the libraries' output lengths are assumed.
  pub decrypt_with_once :
      HasLengths P
      → (sealed : SealedFrame) → length sealed.frame ≡ frame_len
      → (next_ratchet again : Result Crypto.Error PrivateKey) → next_ratchet ≢ panic
      → (s s' : Session) (plaintext : Bytes) → IsValid s
      → position s.skipped (parse sealed.frame) ≡ none
      → decrypt_with P sealed next_ratchet s ≡ (ok plaintext, s')
      → decrypt_with P sealed again s' ≡ (err (crypto authentication), s')
  decrypt_with_once L sealed framed next_ratchet again drawn s s' plaintext v e opened =
      decrypt_with_past sealed again s' (
        subst (IsPast (parse sealed.frame)) (ap (λ r. r.1) opened) (
          opened-IsPast sealed next_ratchet s (decrypt_with P sealed next_ratchet s) plaintext e
            (ap (λ r. r.0) opened) (decrypt_with-Outcome P L sealed framed next_ratchet drawn s v)))
