-- ===== src/Ratchet/Session/Encrypt.antt =====
-- `Session::encrypt` on every branch.
use quietwire.Base.{
  suc, ◌+◌, ◌≤◌, ◌<◌, ◌≡◌, sym, subst, ◌⊎◌, inl, inr, Option, none, some, [], ◌++◌, arith, length,
  take-append, drop-append, length-append, Option-cases, true, false, leb,
}
use quietwire.Base.{Result, ok, err}
use quietwire.Bytes.{Bytes}
use quietwire.Crypto.{Primitives, HasLengths, OpensSealed}
use quietwire.Crypto.Secret.{from_slice_lem}
use quietwire.Crypto.Aead.{Nonce, seal, open_sealed, seal_total}
use quietwire.Crypto.X25519.{public_key, length-public_key}
use quietwire.Ratchet.{
  Key, Error, sending_blocked, SealedFrame, header_len, frame_len, plaintext_len, chain_limit,
}
use quietwire.Ratchet.Header.{Header, parse, to_bytes}
use quietwire.Ratchet.Header.Layout.{IsHeader, length-to_bytes, parse-to_bytes}
use quietwire.Ratchet.Chain.{Chain, Cursor}
use quietwire.Ratchet.Chain.Schedule.{advance, message_key_at}
use quietwire.Ratchet.Chain.Keys.{length-message_key_at, length-advance}
use quietwire.Ratchet.Chain.MessageKey.{next_message_key-at}
use quietwire.Ratchet.Session.{Session, encrypt_with, open_frame}
use quietwire.Ratchet.Session.Steps.{chain_at, into_chain_lem}
use quietwire.Ratchet.Session.Invariant.{IsChain, IsChain?, IsValid}
use native.Mathlib.Decide.{dec_lt}

-- Without a sending chain, or with one of 2 000 frames, nothing is sent and nothing changes.
abbrev pub IsBlocked : Option Chain → Type 0
IsBlocked none = Unit {0}
IsBlocked (some chain) = chain_limit ≤ chain.next

module _ (P : Primitives) where
  encrypt_with-none :
      (nonce : Nonce) (plaintext : Bytes) (s : Session)
      → s.sending ≡ none
      → encrypt_with P nonce plaintext s ≡ (err sending_blocked, s)
  unfolding encrypt_with
  encrypt_with-none nonce plaintext s e = ground arith

  encrypt_with_full :
      (nonce : Nonce) (plaintext : Bytes) (s : Session) (chain : Chain)
      → s.sending ≡ some chain
      → chain_limit ≤ chain.next
      → encrypt_with P nonce plaintext s ≡ (err sending_blocked, s)
  unfolding encrypt_with
  encrypt_with_full nonce plaintext s chain e h =
      let full : leb chain_limit chain.next ≡ true = ground arith in ground arith

  -- The header of the next frame.
  abbrev pub header_of : Session → Chain → Header
  header_of s chain = record {
    ratchet = public_key P s.own_ratchet;
    previous_chain_len = s.previous_sending_len;
    message_number = chain.next;
  }

  -- A frame that was sent: it opens with the chain's key for its number, and the chain moves on.
  pub record Sent (nonce : Nonce) (plaintext : Bytes) (s : Session) (chain : Chain)
      (r : Result Error SealedFrame × Session) : Type 0 where
    pub frame : Bytes
    pub framed : length frame ≡ frame_len
    pub header : parse frame ≡ header_of s chain
    pub opens :
        open_frame P
          (message_key_at P chain.key.expose_secret 0)
          (record { nonce = nonce; frame = frame })
        ≡ ok plaintext
    pub result : r ≡ (
      ok (record { nonce = nonce; frame = frame }),
      record s { sending = some (chain_at (advance P chain.key.expose_secret 1) (suc chain.next)) },
    )

  module _ (L : HasLengths P) (O : OpensSealed P) where
    header_of-IsHeader :
        (s : Session) (chain : Chain)
        → IsValid s
        → chain.next < chain_limit
        → IsHeader (header_of s chain)
    header_of-IsHeader s chain v h = record {
      key_len = length-public_key P L s.own_ratchet;
      previous_fits = omega (arith, v.previous_within);
      number_fits = omega arith;
    }

    open_frame_sealed :
        (key : Key) (nonce : Nonce) (header sealed plaintext : Bytes)
        → length key ≡ 32
        → length header ≡ header_len
        → length plaintext ≡ plaintext_len
        → open_sealed P (record { expose_secret = key }) nonce header sealed ≡ ok plaintext
        → open_frame P key (record { nonce = nonce; frame = header ++ sealed }) ≡ ok plaintext
    unfolding open_frame
    open_frame_sealed key nonce header sealed plaintext hk hh hp e =
        rw (take-append header_len header sealed hh, drop-append header_len header sealed hh)
          (ground (arith, from_slice_lem key hk))

    encrypt_with_run :
        (nonce : Nonce) (plaintext : Bytes) (s : Session) (chain : Chain) (sealed : Bytes)
        → IsChain chain
        → s.sending ≡ some chain
        → chain.next < chain_limit
        → seal P
            (record { expose_secret = message_key_at P chain.key.expose_secret 0 })
            nonce
            (to_bytes (header_of s chain))
            plaintext
          ≡ ok sealed
        → length sealed ≡ plaintext_len + 16
        → encrypt_with P nonce plaintext s ≡ (
          ok (record { nonce = nonce; frame = to_bytes (header_of s chain) ++ sealed }),
          record s {
            sending = some (chain_at (advance P chain.key.expose_secret 1) (suc chain.next));
          },
        )
    unfolding encrypt_with
    encrypt_with_run nonce plaintext s chain sealed c e h sealing size =
        let open_chain : leb chain_limit chain.next ≡ false = ground arith in
        ground (
          arith,
          next_message_key-at P chain h,
          from_slice_lem (message_key_at P chain.key.expose_secret 0)
              (length-message_key_at P L chain.key.expose_secret 0),
          into_chain_lem after (length-advance P L chain.key.expose_secret 1 c.key_len),
        )
      where
        after : Cursor
        after = record {
          key = advance P chain.key.expose_secret 1;
          next = suc chain.next;
          skipped = [];
        }

    pub encrypt_with-Sent :
        (nonce : Nonce) (plaintext : Bytes) (s : Session) (chain : Chain)
        → IsValid s
        → length plaintext ≡ plaintext_len
        → s.sending ≡ some chain
        → chain.next < chain_limit
        → Sent nonce plaintext s chain (encrypt_with P nonce plaintext s)
    encrypt_with-Sent nonce plaintext s chain v hp e h = record {
      frame = header ++ sealed.0;
      framed = omega (arith, length-append header sealed.0, header_size, sealed.2);
      header = parse-to_bytes (header_of s chain) sealed.0 (header_of-IsHeader s chain v h);
      opens =
          open_frame_sealed key nonce header sealed.0 plaintext key_size header_size hp sealed.3;
      result =
          encrypt_with_run nonce plaintext s chain sealed.0 (subst IsChain? e v.sends) e h sealed.1
            (omega (arith, sealed.2));
    }
      where
        header : Bytes
        header = to_bytes (header_of s chain)

        header_size : length header ≡ header_len
        header_size = length-to_bytes (header_of s chain) (header_of-IsHeader s chain v h)

        key : Key
        key = message_key_at P chain.key.expose_secret 0

        key_size : length key ≡ 32
        key_size = length-message_key_at P L chain.key.expose_secret 0

        sealed :
            (sealed : Bytes) × (seal P (record { expose_secret = key }) nonce header plaintext
              ≡ ok sealed)
            × (length sealed ≡ length plaintext + 16)
            × (open_sealed P (record { expose_secret = key }) nonce header sealed ≡ ok plaintext)
        sealed =
            seal_total P L O (record { expose_secret = key }) nonce header plaintext (omega arith)

  -- Sending is refused without a sending chain, or after 2 000 frames of it, and then nothing
  -- changes. Otherwise it succeeds: the frame has 452 bytes, its header has the session's public
  -- key, the length of the previous chain and the next number, it opens to the plaintext with the
  -- chain's next message key, and the chain moves on by one key. The session is valid and the
  -- plaintext has 396 bytes; the libraries' lengths and the cipher's round trip are assumed.
  pub encrypt_with-cases :
      HasLengths P
      → OpensSealed P
      → (nonce : Nonce) (plaintext : Bytes) (s : Session) → IsValid s
      → length plaintext ≡ plaintext_len
      → (IsBlocked s.sending × (encrypt_with P nonce plaintext s ≡ (err sending_blocked, s)))
        ⊎ ((chain : Chain) × (s.sending ≡ some chain)
            × (chain.next < chain_limit)
            × Sent nonce plaintext s chain (encrypt_with P nonce plaintext s))
  encrypt_with-cases L O nonce plaintext s v hp = elim (Option-cases s.sending) [
    | inl e ↦ inl (subst IsBlocked (sym e) tt, encrypt_with-none nonce plaintext s e)
    | inr (chain, e) ↦ elim (dec_lt chain.next chain_limit) [
      | yes h ↦ inr (chain, e, h, encrypt_with-Sent L O nonce plaintext s chain v hp e h)
      | no h ↦
          let full : chain_limit ≤ chain.next = omega arith in
          inl (subst IsBlocked (sym e) full, encrypt_with_full nonce plaintext s chain e full)
    ]
  ]

  -- Sending a plaintext of 396 bytes keeps a session valid, whether it succeeds or not. The libraries'
  -- lengths and the cipher's round trip are assumed.
  pub encrypt_with-IsValid :
      HasLengths P
      → OpensSealed P
      → (nonce : Nonce) (plaintext : Bytes) (s : Session) → IsValid s
      → length plaintext ≡ plaintext_len
      → IsValid (encrypt_with P nonce plaintext s).1
  encrypt_with-IsValid L O nonce plaintext s v hp =
      elim (encrypt_with-cases L O nonce plaintext s v hp) [
        | inl (_, e) ↦ rw e v
        | inr (chain, e, h, sent) ↦ rw sent.result (record {
          root_len = v.root_len;
          sends = record {
            key_len =
                length-advance P L chain.key.expose_secret 1 (subst IsChain? e v.sends).key_len;
            within = h;
          };
          receives = v.receives;
          previous_within = v.previous_within;
          skips = v.skips;
          total = v.total;
          per_chain = v.per_chain;
        })
      ]
