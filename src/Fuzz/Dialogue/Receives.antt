-- ===== src/Fuzz/Dialogue/Receives.antt =====
-- Deliveries and tampered frames in a conversation of the fuzz target.
use quietwire.Base.{
  ℕ, zero, suc, ◌%◌, ◌≡◌, ◌≢◌, refl, ap, ◌∙◌, subst, ◌⊎◌, inl, inr, Bool, true, false, ◌||◌, some,
  List, [], ◌∷◌, arith, length, All, if◌then◌else◌, inside, Bool-cases, All-get_elem?, update,
  get_elem?, ltb,
}
use quietwire.Base.{Result, ok, err, panic}
use quietwire.Bytes.{Bytes, beq, beq_refl, beq→eq}
use quietwire.Crypto.{
  Primitives, HasLengths, authentication, invalid_length, rng, kdf, invalid_public_key,
  invalid_signature,
}
use quietwire.Crypto.Secret.{Draw}
use quietwire.Ratchet.{Error, crypto, sending_blocked, too_far_ahead}
use quietwire.Ratchet.Session.{Session, decrypt}
use quietwire.Ratchet.Session.Invariant.{IsValid}
use quietwire.Fuzz.Dialogue.{
  InFlight, Conversation, Party, alice, bob, session, set_session, inbox, set_inbox, index,
  assert_authentication, mark_opened, deliver_to,
}
use quietwire.Fuzz.Dialogue.Notes.{opened_by}
use quietwire.Fuzz.Dialogue.Invariant.{
  IsFlying, IsConversation, CanSend, HasReceived, Opened, Opened-CanSend, Opened-IsWaiting,
  decrypt-Opened,
}

pub session-IsValid : (to : Party) (c : Conversation) → IsConversation c → IsValid (session to c)
unfolding session
session-IsValid alice c h = h.alice_valid
session-IsValid bob c h = h.bob_valid

pub inbox-IsFlying : (to : Party) (c : Conversation) → IsConversation c → All IsFlying (inbox to c)
unfolding inbox
inbox-IsFlying alice c h = h.for_alice
inbox-IsFlying bob c h = h.for_bob

pub set_session-session : (to : Party) (c : Conversation) → set_session to (session to c) c ≡ c
unfolding session set_session
set_session-session alice c = refl
set_session-session bob c = refl

assert_authentication-cases :
    (r : Result Error Bytes) (c : Conversation)
    → ((r ≡ err (crypto authentication)) × (assert_authentication r c ≡ ok c))
      ⊎ ((r ≢ err (crypto authentication)) × (assert_authentication r c ≡ panic))
assert_authentication-cases (ok plaintext) c = inr (cc, refl)
assert_authentication-cases panic c = inr (cc, refl)
assert_authentication-cases (err sending_blocked) c = inr (cc, refl)
assert_authentication-cases (err too_far_ahead) c = inr (cc, refl)
assert_authentication-cases (err (crypto authentication)) c = inl (refl, refl)
assert_authentication-cases (err (crypto invalid_length)) c = inr (cc, refl)
assert_authentication-cases (err (crypto rng)) c = inr (cc, refl)
assert_authentication-cases (err (crypto kdf)) c = inr (cc, refl)
assert_authentication-cases (err (crypto invalid_public_key)) c = inr (cc, refl)
assert_authentication-cases (err (crypto invalid_signature)) c = inr (cc, refl)

differs : (a b : Bytes) → beq a b ≡ false → a ≢ b
differs a b h e = let same = subst (λ t. beq a t ≡ true) e (beq_refl a) in cc

update-IsFlying :
    (frames : List InFlight) (i : ℕ) (frame : InFlight)
    → All IsFlying frames
    → IsFlying frame
    → All IsFlying (update frames i frame)
update-IsFlying [] i frame h v = tt
update-IsFlying (x ∷ xs) zero frame h v = (v, h.1)
update-IsFlying (x ∷ xs) (suc i) frame h v = (h.0, update-IsFlying xs i frame h.1 v)

or_false : (b : Bool) → (b || false) ≡ b
or_false true = refl
or_false false = refl

or_true : (b : Bool) → (b || true) ≡ true
or_true true = refl
or_true false = refl

mark_opened_lem :
    (to : Party) (i : ℕ) (frame : InFlight) (plaintext : Bytes) (s : Session) (c : Conversation)
    → beq plaintext frame.plaintext ≡ true
    → mark_opened to i frame (ok plaintext) (set_session to s c) ≡ ok (opened_by to i frame s c)
unfolding set_session set_inbox inbox
mark_opened_lem alice i frame plaintext s c same = rw (same, or_false c.bob_has_received) refl
mark_opened_lem bob i frame plaintext s c same = rw (same, or_true c.bob_has_received) refl

module _ (P : Primitives) (L : HasLengths P) where
  HasReceived-Opened :
      (received : Bool) (s : Session) (plaintext : Bytes) (s' : Session) (count : ℕ)
      → Opened P L s plaintext s'
      → HasReceived received s count
      → CanSend s'.sending count
  HasReceived-Opened true s plaintext s' count o h = Opened-CanSend P L s plaintext s' count o h
  HasReceived-Opened false s plaintext s' count o h = Opened-IsWaiting P L s plaintext s' count o h

  opened_by-IsConversation :
      (to : Party) (i : ℕ) (frame : InFlight) (plaintext : Bytes) (s : Session) (c : Conversation)
      → IsConversation c
      → IsFlying frame
      → Opened P L (session to c) plaintext s
      → IsConversation (opened_by to i frame s c)
  unfolding session
  opened_by-IsConversation alice i frame plaintext s c h f o = record {
    alice_valid = o.valid;
    bob_valid = h.bob_valid;
    alice_sends = Opened-CanSend P L c.alice_session plaintext s c.sent o h.alice_sends;
    bob_sends = h.bob_sends;
    for_alice =
        update-IsFlying c.to_alice i _ h.for_alice (record { nonce = f.nonce; framed = f.framed });
    for_bob = h.for_bob;
  }
  opened_by-IsConversation bob i frame plaintext s c h f o = record {
    alice_valid = h.alice_valid;
    bob_valid = o.valid;
    alice_sends = h.alice_sends;
    bob_sends =
        HasReceived-Opened c.bob_has_received c.bob_session plaintext s c.sent o h.bob_sends;
    for_alice = h.for_alice;
    for_bob =
        update-IsFlying c.to_bob i _ h.for_bob (record { nonce = f.nonce; framed = f.framed });
  }

  -- How a delivery ends. It passes if there is nothing to deliver, if the frame was opened before and is
  -- refused as not authentic, and if it was not and opens to its plaintext, which marks it. It fails if
  -- the ratchet, which never panics, answers anything else.
  pub data Delivery (to : Party) (pick : ℕ) (draw : Draw) (c : Conversation)
      (r : Result Error Conversation) : Type 0 where
    idle : length (inbox to c) ≡ 0 → r ≡ ok c → Delivery to pick draw c r
    again :
        (i : ℕ) (frame : InFlight)
        → i ≡ pick % length (inbox to c)
        → get_elem? (inbox to c) i ≡ some frame
        → frame.opened ≡ true
        → decrypt P frame.sealed draw (session to c) ≡ (err (crypto authentication), session to c)
        → r ≡ ok c
        → Delivery to pick draw c r
    opens :
        (i : ℕ) (frame : InFlight) (s : Session)
        → i ≡ pick % length (inbox to c)
        → get_elem? (inbox to c) i ≡ some frame
        → frame.opened ≡ false
        → decrypt P frame.sealed draw (session to c) ≡ (ok frame.plaintext, s)
        → r ≡ ok (opened_by to i frame s c)
        → IsConversation (opened_by to i frame s c)
        → Delivery to pick draw c r
    unread :
        (i : ℕ) (frame : InFlight)
        → i ≡ pick % length (inbox to c)
        → get_elem? (inbox to c) i ≡ some frame
        → frame.opened ≡ false
        → (decrypt P frame.sealed draw (session to c)).0 ≢ panic
        → (decrypt P frame.sealed draw (session to c)).0 ≢ ok frame.plaintext
        → r ≡ panic
        → Delivery to pick draw c r
    reopened :
        (i : ℕ) (frame : InFlight)
        → i ≡ pick % length (inbox to c)
        → get_elem? (inbox to c) i ≡ some frame
        → frame.opened ≡ true
        → (decrypt P frame.sealed draw (session to c)).0 ≢ panic
        → (decrypt P frame.sealed draw (session to c)).0 ≢ err (crypto authentication)
        → r ≡ panic
        → Delivery to pick draw c r

  delivered :
      (to : Party) (pick i : ℕ) (draw : Draw) (c : Conversation) (frame : InFlight)
      → IsConversation c
      → i ≡ pick % length (inbox to c)
      → get_elem? (inbox to c) i ≡ some frame
      → let r = decrypt P frame.sealed draw (session to c) in
        Delivery to pick draw c (
          if frame.opened
          then assert_authentication r.0 (set_session to r.1 c)
          else mark_opened to i frame r.0 (set_session to r.1 c))
  delivered to pick i draw c frame h at here =
      let f = All-get_elem? IsFlying (inbox to c) i (inbox-IsFlying to c h) here in
      elim (decrypt-Opened P L frame.sealed draw (session to c) f.framed (session-IsValid to c h)) [
        | inl (e, refused) ↦
            let answer = ap (λ (t : Result Error Bytes × Session). t.0) refused in
            rw (refused, set_session-session to c)
              (elim (Bool-cases frame.opened) [
                | inl seen ↦ rw seen (elim (assert_authentication-cases (err e) c) [
                  | inl (is, same) ↦
                      again i frame at here seen (refused ∙ ap (λ a. (a, session to c)) is) same
                  | inr (other, fails) ↦
                      reopened i frame at here seen (rw answer cc) (rw answer other) fails
                ])
                | inr fresh ↦
                    rw fresh (unread i frame at here fresh (rw answer cc) (rw answer cc) refl)
              ])
        | inr (plaintext, s, result, o) ↦
            let answer = ap (λ (t : Result Error Bytes × Session). t.0) result in
            rw result (elim (Bool-cases frame.opened) [
              | inl seen ↦
                  rw seen (reopened i frame at here seen (rw answer cc) (rw answer cc) refl)
              | inr fresh ↦ rw fresh (elim (Bool-cases (beq plaintext frame.plaintext)) [
                | inl same ↦
                    opens i frame s at here fresh
                      (result ∙ ap (λ p. (ok p, s)) (beq→eq plaintext frame.plaintext same))
                      (mark_opened_lem to i frame plaintext s c same)
                      (opened_by-IsConversation to i frame plaintext s c h f o)
                | inr other ↦
                    let different = differs plaintext frame.plaintext other in
                    unread i frame at here fresh (rw answer cc) (rw answer (λ e. different (cc)))
                      (rw other refl)
              ])
            ])
      ]

  -- Every delivery in a conversation of the target ends in one of these ways.
  pub deliver_to-Delivery :
      (to : Party) (pick : ℕ) (draw : Draw) (c : Conversation)
      → IsConversation c
      → Delivery to pick draw c (deliver_to P to pick draw c)
  unfolding deliver_to index
  deliver_to-Delivery to pick draw c h = elim (Bool-cases (ltb 0 (length (inbox to c)))) [
    | inr empty ↦ rw (empty, deliver_to) (idle (ground arith) refl)
    | inl some_frames ↦
        let (frame, here) = inside (inbox to c) (pick % length (inbox to c)) (grind arith) in
        rw (some_frames, deliver_to)
          (rw here (delivered to pick (pick % length (inbox to c)) draw c frame h refl here))
  ]
