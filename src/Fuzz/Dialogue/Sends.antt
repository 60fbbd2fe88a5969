-- ===== src/Fuzz/Dialogue/Sends.antt =====
-- Sending in a conversation of the fuzz target.
use quietwire.Base.{
  ℕ, suc, ◌+◌, ◌%◌, ◌^◌, ◌≤◌, ◌<◌, ◌≡◌, refl, sym, ap, ◌∙◌, subst, ◌⊎◌, inl, inr, true, false, some,
  [], ◌∷◌, ◌++◌, arith, length, Bool-cases, All-append, length-append, replicate,
}
use quietwire.Base.{Result, ok, err}
use quietwire.Bytes.{Bytes, to_le_bytes, length-to_le_bytes}
use quietwire.Crypto.{Primitives, HasLengths, OpensSealed}
use quietwire.Crypto.Secret.{Draw, fill}
use quietwire.Crypto.Aead
use quietwire.Crypto.Aead.{Nonce}
use quietwire.Ratchet.{Error, SealedFrame, plaintext_len, chain_limit, sending_blocked}
use quietwire.Ratchet.Session.{Session, encrypt}
use quietwire.Ratchet.Session.Invariant.{IsValid}
use quietwire.Ratchet.Session.Encrypt.{encrypt_with-cases}
use quietwire.Fuzz.Dialogue.{
  InFlight, Conversation, Party, alice, bob, is_bob, session, set_session, inbox, set_inbox, peer,
  numbered_plaintext, send_from, send,
}
use quietwire.Fuzz.Dialogue.Journal.{Journal, note, Follows}
use quietwire.Fuzz.Dialogue.Notes.{send_alice-Follows, send_bob-Follows, send_blocked-Follows}
use quietwire.Fuzz.Dialogue.Invariant.{
  IsFlying, IsConversation, CanSend-mono, IsWaiting, HasReceived, HasReceived-mono, encrypt-CanSend,
}

length-numbered_plaintext : (number : ℕ) → length (numbered_plaintext number) ≡ plaintext_len
unfolding numbered_plaintext
length-numbered_plaintext number =
    length-append (to_le_bytes 4 number) (replicate 392 0)
    ∙ ap (λ n. n + 392) (length-to_le_bytes 4 number)

module _ (P : Primitives) where
  -- What sending does: a responder that has received nothing is blocked; else the ratchet gives a frame,
  -- and it waits for the peer.
  abbrev pub Sends : Party → Draw → (c c' : Conversation) → Type 0
  Sends from draw c c' =
      let r = encrypt P draw (numbered_plaintext c.sent) (session from c) in
      ((is_bob from ≡ true)
        × (c.bob_has_received ≡ false)
        × (r ≡ (err sending_blocked, session from c'))
        × (inbox (peer from) c' ≡ inbox (peer from) c))
      ⊎ ((sealed : SealedFrame) × (r ≡ (ok sealed, session from c'))
          × (inbox (peer from) c'
              ≡ inbox (peer from) c
                ++ (record {
                  sealed = sealed;
                  plaintext = numbered_plaintext c.sent;
                  opened = false;
                }
                    ∷ [])))

module _ (P : Primitives) (L : HasLengths P) (O : OpensSealed P) where
  encrypt-IsWaiting :
      (bytes plaintext : Bytes) (s : Session)
      → IsValid s
      → length plaintext ≡ plaintext_len
      → IsWaiting s
      → encrypt P (some bytes) plaintext s ≡ (err sending_blocked, s)
  unfolding encrypt Aead.random fill
  encrypt-IsWaiting bytes plaintext s v size w =
      elim (encrypt_with-cases P L O (record { as_bytes = bytes }) plaintext s v size) [
        | inl (blocked, e) ↦ e
        | inr (chain, e, open_chain, f) ↦ let empty = w.blocked in absurd (cc)
      ]

  -- Sending has passed its assertion, and the conversation is again one of the target, with the frame.
  pub record Passed (from : Party) (draw : Draw) (c : Conversation) (r : Result Error Conversation)
      : Type 0 where
    pub after : Conversation
    pub passes : r ≡ ok after
    pub again : IsConversation after
    pub counted : after.sent ≡ suc c.sent
    pub sends : Sends P from draw c after
    pub noted : (j : Journal) → Follows j c → Follows (note (send from) j) after

  send_alice :
      (bytes : Bytes) (c : Conversation)
      → length bytes ≡ Aead.nonce_len
      → c.sent < chain_limit
      → IsConversation c
      → Passed alice (some bytes) c (send_from P alice (some bytes) c)
  unfolding send_from session set_session inbox set_inbox peer
  send_alice bytes c drawn lt h =
      let (frame, s', e, framed, valid, sends) =
        encrypt-CanSend P L O bytes (numbered_plaintext c.sent) c.alice_session c.sent h.alice_valid
          (length-numbered_plaintext c.sent) h.alice_sends lt in
      let count : (c.sent + 1) % 2 ^ 32 ≡ suc c.sent = omega arith in
      let more : c.sent ≤ suc c.sent = omega arith in
      let flying : InFlight = record {
        sealed = record { nonce = record { as_bytes = bytes }; frame = frame };
        plaintext = numbered_plaintext c.sent;
        opened = false;
      } in
      record {
        after = record c {
          alice_session = s';
          to_bob = c.to_bob ++ (flying ∷ []);
          sent = suc c.sent;
        };
        passes = rw (e, count, send_from) refl;
        again = record {
          alice_valid = valid;
          bob_valid = h.bob_valid;
          alice_sends = sends;
          bob_sends =
              HasReceived-mono c.bob_has_received c.bob_session c.sent (suc c.sent) more
                h.bob_sends;
          for_alice = h.for_alice;
          for_bob =
              All-append IsFlying c.to_bob (flying ∷ []) h.for_bob
                (record { nonce = drawn; framed = framed }, tt);
        };
        counted = refl;
        sends = inr (flying.sealed, e, refl);
        noted = λ j v. send_alice-Follows j c s' flying.sealed v;
      }

  send_bob :
      (bytes : Bytes) (c : Conversation)
      → length bytes ≡ Aead.nonce_len
      → c.sent < chain_limit
      → IsConversation c
      → c.bob_has_received ≡ true
      → Passed bob (some bytes) c (send_from P bob (some bytes) c)
  unfolding send_from session set_session inbox set_inbox peer
  send_bob bytes c drawn lt h received =
      let (frame, s', e, framed, valid, sends) =
        encrypt-CanSend P L O bytes (numbered_plaintext c.sent) c.bob_session c.sent h.bob_valid
          (length-numbered_plaintext c.sent)
          (subst (λ b. HasReceived b c.bob_session c.sent) received h.bob_sends) lt in
      let count : (c.sent + 1) % 2 ^ 32 ≡ suc c.sent = omega arith in
      let more : c.sent ≤ suc c.sent = omega arith in
      let flying : InFlight = record {
        sealed = record { nonce = record { as_bytes = bytes }; frame = frame };
        plaintext = numbered_plaintext c.sent;
        opened = false;
      } in
      record {
        after = record c {
          bob_session = s';
          to_alice = c.to_alice ++ (flying ∷ []);
          sent = suc c.sent;
        };
        passes = rw (received, e, count, send_from) refl;
        again = record {
          alice_valid = h.alice_valid;
          bob_valid = valid;
          alice_sends = CanSend-mono c.alice_session.sending c.sent (suc c.sent) more h.alice_sends;
          bob_sends = subst (λ b. HasReceived b s' (suc c.sent)) (sym received) sends;
          for_alice =
              All-append IsFlying c.to_alice (flying ∷ []) h.for_alice
                (record { nonce = drawn; framed = framed }, tt);
          for_bob = h.for_bob;
        };
        counted = refl;
        sends = inr (flying.sealed, e, refl);
        noted = λ j v. send_bob-Follows j c s' flying.sealed received v;
      }

  send_waiting :
      (bytes : Bytes) (c : Conversation)
      → c.sent < chain_limit
      → IsConversation c
      → c.bob_has_received ≡ false
      → Passed bob (some bytes) c (send_from P bob (some bytes) c)
  unfolding send_from session set_session inbox set_inbox peer
  send_waiting bytes c lt h waits =
      let waiting = subst (λ b. HasReceived b c.bob_session c.sent) waits h.bob_sends in
      let e =
        encrypt-IsWaiting bytes (numbered_plaintext c.sent) c.bob_session h.bob_valid
          (length-numbered_plaintext c.sent) waiting in
      let count : (c.sent + 1) % 2 ^ 32 ≡ suc c.sent = omega arith in
      let more : c.sent ≤ suc c.sent = omega arith in
      record {
        after = record c { sent = suc c.sent };
        passes = rw (waits, e, count, send_from) refl;
        again = record {
          alice_valid = h.alice_valid;
          bob_valid = h.bob_valid;
          alice_sends = CanSend-mono c.alice_session.sending c.sent (suc c.sent) more h.alice_sends;
          bob_sends =
              HasReceived-mono c.bob_has_received c.bob_session c.sent (suc c.sent) more
                h.bob_sends;
          for_alice = h.for_alice;
          for_bob = h.for_bob;
        };
        counted = refl;
        sends = inl (refl, waits, e, refl);
        noted = λ j v. send_blocked-Follows j c waits v;
      }

  -- Sending passes its assertion in every conversation of the target that has sent fewer than 2 000
  -- frames: whoever sends gets a frame, except a responder that has received nothing, which is
  -- blocked.
  pub send_from-Passed :
      (from : Party) (bytes : Bytes) (c : Conversation)
      → length bytes ≡ Aead.nonce_len
      → c.sent < chain_limit
      → IsConversation c
      → Passed from (some bytes) c (send_from P from (some bytes) c)
  send_from-Passed alice bytes c drawn lt h = send_alice bytes c drawn lt h
  send_from-Passed bob bytes c drawn lt h = elim (Bool-cases c.bob_has_received) [
    | inl received ↦ send_bob bytes c drawn lt h received
    | inr waits ↦ send_waiting bytes c lt h waits
  ]
