-- ===== src/Fuzz/Reheadered/Genuine.antt =====
-- The steps of the fuzz target of the header, from a live session on.
use quietwire.Base.{
  ℕ, suc, ◌+◌, ◌≤◌, ◌<◌, ◌≡◌, ◌≢◌, refl, sym, ap, ◌∙◌, subst, ◌⊎◌, inl, inr, Bool, true, false,
  some, arith, length, Bool-cases,
}
use quietwire.Base.{Result, ok, panic}
use quietwire.Bytes.{beq, beq_refl, beq→eq, length-to_le_bytes, to_le_bytes}
use quietwire.Bytes as Base
use quietwire.Crypto.{Primitives, HasLengths, OpensSealed}
use quietwire.Crypto.Secret.{Draw, fill}
use quietwire.Crypto.Aead
use quietwire.Crypto.Aead.{Nonce}
use quietwire.Crypto.X25519
use quietwire.Crypto.X25519.{PrivateKey, PublicKey, public_key}
use quietwire.Ratchet.{Key, Error, SealedFrame, frame_len, chain_limit, max_skip_per_chain}
use quietwire.Ratchet.Header.{parse}
use quietwire.Ratchet.Chain.Schedule.{advance, advance-add}
use quietwire.Ratchet.Session.{Session, encrypt, decrypt}
use quietwire.Ratchet.Session.Steps.{chain_at}
use quietwire.Ratchet.Session.Invariant.{IsValid}
use quietwire.Ratchet.Session.Encrypt.{encrypt_with-Sent, encrypt_with-IsValid}
use quietwire.Ratchet.Session.Delivery.{IsFrame}
use quietwire.Ratchet.Session.Exchange.{Sent-IsFrame}
use quietwire.Ratchet.Session.Mirrors.{mark, Mirrors}
use quietwire.Ratchet.Session.AnyOrder.{receives}
use quietwire.Fuzz.Dialogue.Invariant.{decrypt-Opened}
use quietwire.Fuzz.Reheadered.{
  plaintext, check_peer, check_genuine, check_next, expected, asserted, is_same,
}

-- A sender that has come to number `n` of its chain.
pub record Sends (P : Primitives) (start : Key) (ratchet : PublicKey) (n : ℕ) (a : Session)
    : Type 0 where
  pub valid : IsValid a
  pub sends : a.sending ≡ some (chain_at (advance P start n) n)
  pub owns : public_key P a.own_ratchet ≡ ratchet

is_same_refl : (own : SealedFrame) → is_same own own ≡ true
unfolding is_same
is_same_refl own = rw (beq_refl own.nonce.as_bytes) (beq_refl own.frame)

is_same→eq : (peer own : SealedFrame) → is_same peer own ≡ true → peer ≡ own
unfolding is_same
is_same→eq peer own h =
    let nonces : beq peer.nonce.as_bytes own.nonce.as_bytes ≡ true = ground arith in
    let frames : beq peer.frame own.frame ≡ true = ground arith in
    λ i. record {
      nonce = record { as_bytes = beq→eq peer.nonce.as_bytes own.nonce.as_bytes nonces i };
      frame = beq→eq peer.frame own.frame frames i;
    }

module _ (P : Primitives) (L : HasLengths P) (start : Key) (ratchet : PublicKey) where
  -- The next frame of the sender.
  pub send_next :
      OpensSealed P
      → (bytes : Base.Bytes) (n : ℕ) (a : Session) → n < chain_limit
      → Sends P start ratchet n a
      → (frame : Base.Bytes) × (a' : Session) × (encrypt P (some bytes) plaintext a
          ≡ (ok (record { nonce = record { as_bytes = bytes }; frame = frame }), a'))
        × (length frame ≡ frame_len)
        × IsFrame P start ratchet n plaintext
            (record { nonce = record { as_bytes = bytes }; frame = frame })
        × ((parse frame).previous_chain_len ≡ a.previous_sending_len)
        × Sends P start ratchet (suc n) a'
  unfolding encrypt Aead.random fill
  send_next O bytes n a lt s =
      let nonce : Nonce = record { as_bytes = bytes } in
      let sent =
        encrypt_with-Sent P L O nonce plaintext a (chain_at (advance P start n) n) s.valid refl
          s.sends lt in
      let valid = encrypt_with-IsValid P L O nonce plaintext a s.valid refl in
      let r = ap (λ (t : Result Error SealedFrame × Session). t.1) sent.result in
      let sum : n + 1 ≡ suc n = omega arith in
      let f = Sent-IsFrame P start n nonce plaintext a _ sent in
      (
        sent.frame,
        record a { sending = some (chain_at (advance P (advance P start n) 1) (suc n)) },
        sent.result,
        sent.framed,
        record { from = f.from ∙ s.owns; number = f.number; opens = f.opens },
        ap (λ h. h.previous_chain_len) sent.header,
        record {
          valid = subst IsValid r valid;
          sends =
              ap (λ k. some (chain_at k (suc n)))
                (advance-add P start n 1 ∙ ap (advance P start) sum);
          owns = s.owns;
        },
      )

  -- The target passes, or the peer's frame is not the genuine one and has opened.
  abbrev pub Challenged :
      SealedFrame → SealedFrame → Draw → Session → Result Error (Unit {0}) → Type 0
  Challenged peer own draw bob r =
      (r ≡ ok tt)
      ⊎ ((r ≡ panic)
          × (peer ≢ own)
          × ((opened : Base.Bytes) × ((decrypt P peer draw bob).0 ≡ ok opened)))

  module _ (O : OpensSealed P) (base : ℕ) (fits : base + 3 ≤ max_skip_per_chain)
      (bytes : Base.Bytes) (second third : Draw) (own : SealedFrame)
      (own_is : IsFrame P start ratchet 1 plaintext own) (alice : Session)
      (a : Sends P start ratchet 2 alice) where
    -- The last step of the target.
    abbrev last : Session → Result Error (Unit {0})
    last bob =
        expected (encrypt P (some bytes) plaintext alice)
          (λ next alice. asserted check_next (decrypt P next third bob) (λ bob. ok tt))

    last_passes :
        (next : ℕ) (taken : ℕ → Bool) (bob : Session)
        → next ≤ 3
        → taken 2 ≡ false
        → Mirrors P start ratchet base next taken bob
        → last bob ≡ ok tt
    unfolding decrypt
    last_passes next taken bob le fresh m =
        let (frame, alice', sent, framed, f, _, _) = send_next O bytes 2 alice (omega arith) a in
        let sealed : SealedFrame = record { nonce = record { as_bytes = bytes }; frame = frame } in
        rw sent
          (elim (receives P start ratchet L base 3 fits sealed (X25519.generate third) next 2 taken
            bob plaintext m le (omega arith) f) [
              | inl (again, _) ↦ absurd (cc)
              | inr (_, (next', bob', opened, _, _, _)) ↦ rw (opened, beq_refl plaintext) refl
            ])

    genuine_passes :
        (is_genuine : Bool) (next : ℕ) (taken : ℕ → Bool) (bob : Session)
        → next ≤ 3
        → taken 1 ≡ is_genuine
        → taken 2 ≡ false
        → Mirrors P start ratchet base next taken bob
        → asserted (check_genuine is_genuine) (decrypt P own second bob) last ≡ ok tt
    unfolding decrypt
    genuine_passes true next taken bob le here fresh m =
        elim (receives P start ratchet L base 3 fits own (X25519.generate second) next 1 taken bob
          plaintext m le (omega arith) own_is) [
            | inl (_, refused) ↦ rw refused (last_passes next taken bob le fresh m)
            | inr (new, _) ↦ absurd (cc)
          ]
    genuine_passes false next taken bob le here fresh m =
        elim (receives P start ratchet L base 3 fits own (X25519.generate second) next 1 taken bob
          plaintext m le (omega arith) own_is) [
            | inl (again, _) ↦ absurd (cc)
            | inr (_, (next', bob', opened, le', m', _)) ↦
                rw opened (last_passes next' (mark 1 taken) bob' le' fresh m')
          ]

    pub peer_passes :
        (peer : SealedFrame) (again : Draw) (next : ℕ) (taken : ℕ → Bool) (bob : Session)
        → length peer.frame ≡ frame_len
        → IsValid bob
        → next ≤ 3
        → taken 1 ≡ false
        → taken 2 ≡ false
        → Mirrors P start ratchet base next taken bob
        → Challenged peer own again bob (
            asserted
              (check_peer (is_same peer own))
              (decrypt P peer again bob)
              (λ bob. asserted (check_genuine (is_same peer own)) (decrypt P own second bob) last))
    unfolding decrypt
    peer_passes peer again next taken bob framed v le fresh fresh' m =
        elim (Bool-cases (is_same peer own)) [
          | inl same ↦
              let f =
                subst (IsFrame P start ratchet 1 plaintext) (sym (is_same→eq peer own same))
                  own_is in
              elim (receives P start ratchet L base 3 fits peer (X25519.generate again) next 1 taken
                bob plaintext m le (omega arith) f) [
                  | inl (old, _) ↦ absurd (cc)
                  | inr (_, (next', bob', opened, le', m', _)) ↦ inl (
                      rw (same, opened, beq_refl plaintext)
                        (genuine_passes true next' (mark 1 taken) bob' le' refl fresh' m'))
                ]
          | inr other ↦ elim (decrypt-Opened P L peer again bob framed v) [
            | inl (e, refused) ↦
                inl (rw (other, refused) (genuine_passes false next taken bob le fresh fresh' m))
            | inr (opened, bob', result, _) ↦ inr (
              rw (other, result) refl,
              (λ (e : peer ≡ own).
                  let same = ap (λ f. is_same f own) e ∙ is_same_refl own in absurd (cc)),
              (opened, ap (λ (t : Result Error Base.Bytes × Session). t.0) result),
            )
          ]
        ]
